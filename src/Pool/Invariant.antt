-- ===== src/Pool/Invariant.antt =====
-- The invariant of the pool, and that every operation keeps it.
use fend.Prelude.{
  ℕ, ◌≤◌, ◌<◌, ◌≡◌, sym, subst, ◌≢◌, inl, inr, String, none, some, List, [], ◌∷◌, arith, string_eq,
  Bool-cases,
}
use fend.Prelude.Dict.{
  lookup, insert, remove, Distinct, insert-Distinct, remove-Distinct, AllValues, insert-AllValues,
  remove-AllValues, AllValues-lookup,
}
use fend.Vm.{VmPool, VmEntry, running, stopping, cid_base, cid_max}
use fend.Pool.{with_launcher}

-- What holds of each entry, where `next` is the next CID to be given out.
pub record EntryOk (next : ℕ) (e : VmEntry) : Type 0 where
  pub not_reserved : cid_base ≤ e.cid
  pub given_out : e.cid < next
  pub not_last : e.cid < cid_max
  pub not_stopping : e.state ≢ stopping
  pub has_process : e.state ≡ running → e.process ≢ none

-- No two entries have one CID.
abbrev pub Unused : ℕ → List (String × VmEntry) → Type 0
Unused c = AllValues (λ (e : VmEntry). e.cid ≢ c)

abbrev pub CidsDistinct : List (String × VmEntry) → Type 0
CidsDistinct [] = Unit
CidsDistinct ((k, e) ∷ vms) = Unused e.cid vms × CidsDistinct vms

pub record Inv (p : VmPool) : Type 0 where
  pub keys : Distinct p.vms
  pub entries : AllValues (EntryOk p.next_cid) p.vms
  pub cids : CidsDistinct p.vms
  pub next : cid_base ≤ p.next_cid

pub with_launcher-Inv : (dir : String) → Inv (with_launcher dir)
unfolding with_launcher
with_launcher-Inv dir = record { keys = tt; entries = tt; cids = tt; next = omega arith }

-- A write of an entry with the CID of the one that it replaces.
insert_same-CidsDistinct :
    (k : String) (v w : VmEntry) (vms : List (String × VmEntry))
    → lookup k vms ≡ some w
    → w.cid ≡ v.cid
    → CidsDistinct vms
    → CidsDistinct (insert k v vms)
unfolding lookup insert
insert_same-CidsDistinct k v w [] found e d = cc
insert_same-CidsDistinct k v w ((j, u) ∷ vms) found e (unused, d) =
    elim (Bool-cases (string_eq.beq j k)) [
      | inl hit ↦
          let e' : u ≡ w = ground (arith, hit) in
          let same : u.cid ≡ v.cid = cc in rw hit (subst (λ c. Unused c vms) same unused, d)
      | inr miss ↦
          let found' : lookup k vms ≡ some w = ground (arith, miss) in
          rw miss (
            insert-AllValues (λ (x : VmEntry). x.cid ≢ u.cid) k v vms
                (subst (λ c. c ≢ u.cid) e
                  (AllValues-lookup (λ (x : VmEntry). x.cid ≢ u.cid) k w vms unused found'))
                unused,
            insert_same-CidsDistinct k v w vms found' e d,
          )
    ]

pub insert_fresh-CidsDistinct :
    (k : String) (v : VmEntry) (vms : List (String × VmEntry))
    → Unused v.cid vms
    → CidsDistinct vms
    → CidsDistinct (insert k v vms)
unfolding insert
insert_fresh-CidsDistinct k v [] unused d = (tt, tt)
insert_fresh-CidsDistinct k v ((j, u) ∷ vms) unused d = elim (Bool-cases (string_eq.beq j k)) [
  | inl hit ↦ rw hit (unused.1, d.1)
  | inr miss ↦ rw miss (
    insert-AllValues (λ (x : VmEntry). x.cid ≢ u.cid) k v vms (λ e. unused.0 (sym e)) d.0,
    insert_fresh-CidsDistinct k v vms unused.1 d.1,
  )
]

remove-CidsDistinct :
    (k : String) (vms : List (String × VmEntry)) → CidsDistinct vms → CidsDistinct (remove k vms)
unfolding remove
remove-CidsDistinct k [] d = tt
remove-CidsDistinct k ((j, u) ∷ vms) d = elim (Bool-cases (string_eq.beq j k)) [
  | inl hit ↦ rw hit (remove-CidsDistinct k vms d.1)
  | inr miss ↦
      rw miss
        (remove-AllValues (λ (x : VmEntry). x.cid ≢ u.cid) k vms d.0, remove-CidsDistinct k vms d.1)
]

module _ (p : VmPool) (v : Inv p) where
  -- An entry that is replaced by one with its CID.
  pub replace-Inv :
      (k : String) (new old : VmEntry)
      → lookup k p.vms ≡ some old
      → old.cid ≡ new.cid
      → (EntryOk p.next_cid old → EntryOk p.next_cid new)
      → Inv (record p { vms = insert k new p.vms })
  replace-Inv k new old found e f = record {
    keys = insert-Distinct k new p.vms v.keys;
    entries =
        insert-AllValues (EntryOk p.next_cid) k new p.vms
          (f (AllValues-lookup (EntryOk p.next_cid) k old p.vms v.entries found)) v.entries;
    cids = insert_same-CidsDistinct k new old p.vms found e v.cids;
    next = v.next;
  }

  pub remove-Inv : (k : String) → Inv (record p { vms = remove k p.vms })
  remove-Inv k = record {
    keys = remove-Distinct k p.vms v.keys;
    entries = remove-AllValues (EntryOk p.next_cid) k p.vms v.entries;
    cids = remove-CidsDistinct k p.vms v.cids;
    next = v.next;
  }

  pub lookup-EntryOk : (k : String) (e : VmEntry) → lookup k p.vms ≡ some e → EntryOk p.next_cid e
  lookup-EntryOk k e found = AllValues-lookup (EntryOk p.next_cid) k e p.vms v.entries found
