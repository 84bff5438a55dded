-- ===== src/Pool/StaleBoot.antt =====
-- A boot that outlives its entry.
use fend.Prelude.{
  ℕ, ◌+◌, ◌%◌, ◌^◌, ◌<◌, ◌≡◌, refl, ap, ◌∙◌, String, false, none, some, List, [], ◌∷◌, ok, arith,
  leb, string_eq,
}
use fend.Prelude.Dict.{lookup, insert, remove, lookup-insert, lookup-remove}
use fend.Prelude.Text.{join, concat, show}
use fend.Ipc.{VmConfig}
use fend.Vm.{VmPool, VmEntry, running, VmProcess, cid_max}
use fend.Pool.{
  Attempt, boot, allocate_cid, reserve, attempt, new_entry, adopt, finish_boot, stop, take_out,
  take,
}

abbrev run_dir_of : VmPool → String → ℕ → String
run_dir_of p key cid = join (join p.state_dir "vms") (concat (key ∷ "-" ∷ show cid ∷ []))

-- On an empty slot, with a CID to give out.
attempt_empty :
    (project key : String) (config : VmConfig) (now : ℕ) (p : VmPool)
    → lookup key p.vms ≡ none
    → p.next_cid < cid_max
    → attempt project key config now p ≡ (
      boot p.next_cid (run_dir_of p key p.next_cid),
      record p {
        next_cid = p.next_cid + 1;
        vms =
            insert key
              (new_entry project config now p.next_cid (run_dir_of p key p.next_cid))
              p.vms;
      },
    )
unfolding attempt reserve allocate_cid
attempt_empty project key config now p empty room =
    let fits : leb cid_max p.next_cid ≡ false = ground arith in
    let up : (p.next_cid + 1) % 2 ^ 32 ≡ p.next_cid + 1 = omega arith in rw (empty, fits, up)

lookup-insert_self :
    (k : String) (e : VmEntry) (m : List (String × VmEntry)) → lookup k (insert k e m) ≡ some e
lookup-insert_self k e m = rw (lookup-insert k k e m, (string_eq.beq_iff k k).1 refl)

lookup-remove_self : (k : String) (m : List (String × VmEntry)) → lookup k (remove k m) ≡ none
lookup-remove_self k m = rw (lookup-remove k k m, (string_eq.beq_iff k k).1 refl)

stop_found :
    (key : String) (p : VmPool) (e : VmEntry)
    → lookup key p.vms ≡ some e
    → (stop (some key) p).1 ≡ record p { vms = remove key p.vms }
unfolding stop take_out take
stop_found key p e found = rw found

finish_found :
    (key : String) (cid : ℕ) (run_dir : String) (process : VmProcess) (p : VmPool) (e : VmEntry)
    → lookup key p.vms ≡ some e
    → (finish_boot key cid run_dir (ok process) p).1
      ≡ record p { vms = insert key (record e { state = running; process = some process }) p.vms }
unfolding finish_boot adopt
finish_found key cid run_dir process p e found = rw found

-- The first caller reserves the slot and boots; the project is stopped meanwhile, and a second
-- caller reserves the slot again; then the first boot ends well.
abbrev pub overtaken : String → String → VmConfig → ℕ → ℕ → VmPool → VmPool
overtaken project key config t1 t2 p =
    let reserved = (attempt project key config t1 p).1 in
    let emptied = (stop (some key) reserved).1 in
    let again = (attempt project key config t2 emptied).1 in
    (finish_boot key p.next_cid (run_dir_of p key p.next_cid)
      (ok (record { launched_cid = p.next_cid })) again).1

module _ (project key : String) (config : VmConfig) (t1 t2 : ℕ) (p : VmPool)
    (empty : lookup key p.vms ≡ none) (room : p.next_cid + 1 < cid_max) where
  first : VmEntry
  first = new_entry project config t1 p.next_cid (run_dir_of p key p.next_cid)

  second : VmEntry
  second = new_entry project config t2 (p.next_cid + 1) (run_dir_of p key (p.next_cid + 1))

  after_first : VmPool
  after_first = record p { next_cid = p.next_cid + 1; vms = insert key first p.vms }

  after_stop : VmPool
  after_stop = record p { next_cid = p.next_cid + 1; vms = remove key (insert key first p.vms) }

  after_second : VmPool
  after_second = record p {
    next_cid = p.next_cid + 1 + 1;
    vms = insert key second (remove key (insert key first p.vms));
  }

  reserved_lem : (attempt project key config t1 p).1 ≡ after_first
  unfolding after_first first
  reserved_lem = rw (attempt_empty project key config t1 p empty (omega arith))

  emptied_lem : (stop (some key) after_first).1 ≡ after_stop
  unfolding after_first after_stop
  emptied_lem = stop_found key after_first first (lookup-insert_self key first p.vms)

  again_lem : (attempt project key config t2 after_stop).1 ≡ after_second
  unfolding after_stop after_second second
  again_lem =
      ap (λ (r : Attempt × VmPool). r.1)
        (attempt_empty project key config t2 after_stop
          (lookup-remove_self key (insert key first p.vms)) room)

  third_lem :
      (attempt project key config t2 (stop (some key) (attempt project key config t1 p).1).1).1
      ≡ after_second
  third_lem =
      ap (λ (q : VmPool). (attempt project key config t2 q).1)
        (ap (λ (q : VmPool). (stop (some key) q).1) reserved_lem ∙ emptied_lem)
      ∙ again_lem

  abbrev ended : VmPool → VmPool
  ended q =
      (finish_boot key p.next_cid (run_dir_of p key p.next_cid)
        (ok (record { launched_cid = p.next_cid })) q).1

  overtaken_lem : overtaken project key config t1 t2 p ≡ record after_second {
    vms =
        insert key
          (record second { state = running; process = some (record { launched_cid = p.next_cid }) })
          after_second.vms;
  }
  unfolding after_second
  overtaken_lem =
      ap (λ (q : VmPool). ended q) third_lem
      ∙ finish_found key p.next_cid _ _ after_second second (lookup-insert_self key second _)

  -- When the key has no entry at first and two CIDs are left to give out: after a first attempt, a
  -- stop, a second attempt and the good end of the first boot, the entry of the second attempt is
  -- marked `Running` and holds the process that was launched with the CID of the first.
  pub overtaken_wrong_process :
      (e : VmEntry) × (lookup key (overtaken project key config t1 t2 p).vms ≡ some e)
      × (e.state ≡ running)
      × (e.cid ≡ p.next_cid + 1)
      × (e.process ≡ some (record { launched_cid = p.next_cid }))
  unfolding second new_entry
  overtaken_wrong_process = (
    record second { state = running; process = some (record { launched_cid = p.next_cid }) },
    rw overtaken_lem (lookup-insert_self key _ after_second.vms),
    refl,
    refl,
    refl,
  )
