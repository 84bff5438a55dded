-- ===== src/Guest/Subscribers/Removal.antt =====
-- A round of notifications keeps exactly the subscribers that it reached.
use mathlib.Core.List.{Permᴰ}
use mathlib.Core.List.{append_assoc}
use fend.Prelude.{
  inl, inr, ℕ, suc, ◌≡◌, refl, sym, ap, subst, ◌∙◌, Bool, true, List, [], ◌∷◌, ◌++◌, if◌then◌else◌,
  length, All, length-append, Bool-cases, arith,
}
use fend.Guest.Subscribers.{behind, last_first, swap_remove, remove_dead, notify_all, notify_round}

module _ {A : Type 0} where
  behind-perm : (x : A) (xs ys : List A) → Permᴰ xs ys → Permᴰ (behind x xs) (x ∷ ys)
  behind-perm x [] ys h = Permᴰ.cons refl h
  behind-perm x (l ∷ front) ys h = Permᴰ.trans (Permᴰ.swap refl refl) (Permᴰ.cons refl h)

  last_first-perm : (xs : List A) → Permᴰ (last_first xs) xs
  unfolding last_first
  last_first-perm [] = Permᴰ.nil
  last_first-perm (x ∷ xs) = behind-perm x (last_first xs) xs (last_first-perm xs)

  swap_remove-append :
      (ys zs : List A) (z : A) → swap_remove (length ys) (ys ++ z ∷ zs) ≡ ys ++ last_first zs
  unfolding swap_remove
  swap_remove-append [] zs z = refl
  swap_remove-append (y ∷ ys) zs z = ap (λ t. y ∷ t) (swap_remove-append ys zs z)

module _ {A : Type 0} (notify : A → A × Bool) where
  -- Those that a round reaches, in their order.
  abbrev pub reached : List A → List A
  reached [] = []
  reached (sub ∷ subs) =
      let (sub', sent) = notify sub in if sent then sub' ∷ reached subs else reached subs

  abbrev Kept : ℕ → List A → List A → Type 0
  Kept i ys subs =
      (ws : List A) × (remove_dead (notify_all notify i subs).1 (ys ++ (notify_all notify i subs).0)
        ≡ ys ++ ws)
      × Permᴰ ws (reached subs)

  module _ (i : ℕ) (ys subs : List A) where
    abbrev Notified : A → Type 0
    Notified sub' =
        (ws : List A) × (remove_dead (notify_all notify (suc i) subs).1
            (ys ++ sub' ∷ (notify_all notify (suc i) subs).0)
          ≡ ys ++ sub' ∷ ws)
        × Permᴰ ws (reached subs)

    shifted : (sub' : A) → Kept (suc i) (ys ++ sub' ∷ []) subs → Notified sub'
    shifted sub' (ws, e, p) = (
      ws,
      rw
          (
            append_assoc ys (sub' ∷ []) ws,
            append_assoc ys (sub' ∷ []) (notify_all notify (suc i) subs).0,
          )
          at e,
      p,
    )

    after_one : (sub : A) → i ≡ length ys → Notified (notify sub).0 → Kept i ys (sub ∷ subs)
    unfolding notify_all remove_dead
    after_one sub e (ws, r, p) = elim (Bool-cases (notify sub).1) [
      | inl sent ↦ rw sent ((notify sub).0 ∷ ws, r, Permᴰ.cons refl p)
      | inr failed ↦ rw failed (
        last_first ws,
        ap (swap_remove i) r ∙ rw e (swap_remove-append ys ws (notify sub).0),
        Permᴰ.trans (last_first-perm ws) p,
      )
    ]

  -- After the elements of `ys`, which stay in front.
  kept : (i : ℕ) (ys subs : List A) → i ≡ length ys → Kept i ys subs
  unfolding notify_all remove_dead
  kept i ys [] e = ([], refl, Permᴰ.nil)
  kept i ys (sub ∷ subs) e =
      let sub' = (notify sub).0 in
      after_one i ys subs sub e (
        shifted i ys subs sub'
          (kept (suc i) (ys ++ sub' ∷ []) subs (omega (arith, length-append ys (sub' ∷ [])))))

  -- Whoever a round reaches remains, once, and nobody else; only the order may change. The failed
  -- ones are taken out by position, from the last to the first, each time with the last element in
  -- the gap.
  pub notify_round-reached : (subs : List A) → Permᴰ (notify_round notify subs) (reached subs)
  unfolding notify_round
  notify_round-reached subs =
      let (ws, e, p) = kept 0 [] subs refl in subst (λ l. Permᴰ l (reached subs)) (sym e) p

module _ {A : Type 0} (P : A → Type 0) where
  pub All-Permᴰ : (xs ys : List A) → Permᴰ xs ys → All P ys → All P xs
  All-Permᴰ _ _ Permᴰ.nil h = tt
  All-Permᴰ _ _ (Permᴰ.cons {l₁ = xs} {l₂ = ys} e d) h =
      (subst P (sym e) h.0, All-Permᴰ xs ys d h.1)
  All-Permᴰ _ _ (Permᴰ.swap e e') h = (subst P (sym e) h.1.0, (subst P (sym e') h.0, h.1.1))
  All-Permᴰ _ _ (Permᴰ.trans {l₁ = xs} {l₂ = ys} {l₃ = zs} d d') h =
      All-Permᴰ xs ys d (All-Permᴰ ys zs d' h)

-- What holds of every subscriber that is reached holds after the round.
pub All-notify_round :
    {A : Type 0} (notify : A → A × Bool) (P Q : A → Type 0) (subs : List A)
    → ((sub : A) → P sub → (notify sub).1 ≡ true → Q (notify sub).0)
    → All P subs
    → All Q (notify_round notify subs)
All-notify_round {A} notify P Q subs f h =
    All-Permᴰ Q _ _ (notify_round-reached notify subs) (All-reached subs h)
  where
    All-reached : (subs : List A) → All P subs → All Q (reached notify subs)
    All-reached [] h = tt
    All-reached (sub ∷ subs) h = elim (Bool-cases (notify sub).1) [
      | inl sent ↦ rw sent (f sub h.0 sent, All-reached subs h.1)
      | inr failed ↦ rw failed (All-reached subs h.1)
    ]
