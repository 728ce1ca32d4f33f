-- ===== src/Runner/Containers/Expired.antt =====
-- What `reap_expired_containers` of src/leftovers/runner.py may remove.
use leftovers.Base.Int.{ℤ, pos, ltb_ℤ}
use leftovers.Base.{
  all, is_empty, String, ◌≡◌, Bool, true, not, ◌&&◌, Option, none, some, List, [], ◌∷◌, arith,
}
use leftovers.Runner.Containers.{Labels, Event, removed, Act, Runtime, is_identifier}
use leftovers.Runner.Containers.Sweep.{
  is_managed, is_complete, lease, Swept, sweep_expired, judge, sweep, verify_swept, sweep_listed,
  reap_expired_containers,
}
use leftovers.Runner.Containers.Laws.{
  was_seen, IsJustified, Keeps, Keeps-bind, Keeps-pure, Keeps-call, Keeps-note, Keeps-if,
  Keeps-from, Read, container_labels-Keeps, IsJustified-closed,
}
use leftovers.Base.Result.{err, ok}

-- The containers that a sweep may remove at a time.
abbrev pub is_removable : ℤ → Labels → Bool
is_removable cutoff labels =
    is_managed labels && is_complete labels && not (ltb_ℤ cutoff (pos (lease labels)))

module _ {W : Type 0} (runtime : Runtime W) (cutoff : ℤ) where
  abbrev pub IsSwept : List Event → Type 0
  IsSwept = IsJustified (is_removable cutoff)

  sweep_expired-Keeps :
      (id : String) {rest : Act W (Swept runtime)}
      → Keeps IsSwept rest (λ _. IsSwept)
      → Keeps
          (λ t. (was_seen (is_removable cutoff) id t ≡ true) × IsSwept t)
          (sweep_expired runtime id rest)
          (λ _. IsSwept)
  sweep_expired-Keeps id again =
      Keeps-bind
        (Keeps-bind (Keeps-note {Q = IsSwept} (removed id) (λ t p. p))
          (λ _. Keeps-call (runtime.remove id)))
        (λ gone.
          Keeps-if gone (λ _. Keeps-bind again (λ swept. Keeps-pure _ (λ t p. p)))
            (λ _. Keeps-pure _ (λ t p. p)))

  judge-Keeps :
      (id : String) (found : Option Labels) {rest : Act W (Swept runtime)}
      → Keeps IsSwept rest (λ _. IsSwept)
      → Keeps
          (λ t. Read runtime (is_removable cutoff) id found t × IsSwept t)
          (judge runtime cutoff id rest found)
          (λ _. IsSwept)
  judge-Keeps id none again = Keeps-pure _ (λ t p. p.1)
  judge-Keeps id (some labels) again =
      Keeps-if (not (is_managed labels)) (λ _. Keeps-pure _ (λ t p. p.1))
        (λ managed.
          Keeps-if (not (is_complete labels)) (λ _. Keeps-pure _ (λ t p. p.1))
            (λ full.
              Keeps-if (ltb_ℤ cutoff (pos (lease labels))) (λ _. Keeps-from (λ t p. p.1) again)
                (λ over.
                  Keeps-from (λ t p. (p.0 (ground arith), p.1)) (sweep_expired-Keeps id again))))

  sweep-Keeps : (ids : List String) → Keeps IsSwept (sweep runtime cutoff ids) (λ _. IsSwept)
  unfolding sweep
  sweep-Keeps [] = Keeps-pure _ (λ t p. p)
  sweep-Keeps (id ∷ ids) =
      Keeps-bind
        (container_labels-Keeps runtime (is_removable cutoff)
          (IsJustified-closed runtime (is_removable cutoff)) id)
        (λ found. judge-Keeps id found (sweep-Keeps ids))

  verify_swept-Keeps :
      (swept : Swept runtime) → Keeps IsSwept (verify_swept runtime swept) (λ _. IsSwept)
  verify_swept-Keeps (err message) = Keeps-pure _ (λ t p. p)
  verify_swept-Keeps (ok ids) =
      Keeps-if (is_empty ids) (λ _. Keeps-pure _ (λ t p. p))
        (λ _. Keeps-bind (Keeps-call runtime.list_all) (λ remaining. Keeps-pure _ (λ t p. p)))

  sweep_listed-Keeps :
      (listed : Option (List String))
      → Keeps IsSwept (sweep_listed runtime cutoff listed) (λ _. IsSwept)
  sweep_listed-Keeps none = Keeps-pure _ (λ t p. p)
  sweep_listed-Keeps (some ids) =
      Keeps-if (all is_identifier ids) (λ _. Keeps-bind (sweep-Keeps ids) verify_swept-Keeps)
        (λ _. Keeps-pure _ (λ t p. p))

  reap-Keeps : Keeps IsSwept (reap_expired_containers runtime cutoff) (λ _. IsSwept)
  unfolding reap_expired_containers
  reap-Keeps =
      Keeps-bind
        (Keeps-if runtime.available (λ _. Keeps-call runtime.list_all)
          (λ _. Keeps-pure (some []) (λ t p. p)))
        sweep_listed-Keeps

  -- Whatever the container runtime answers, the sweep removes no container that it has not inspected
  -- before, with labels that name it as managed, are complete, and end its lease at the cutoff or
  -- before it.
  pub reap-IsJustified :
      (world : W)
      → IsJustified
          (is_removable cutoff)
          (reap_expired_containers runtime cutoff (record { world = world; trace = [] })).1.trace
  reap-IsJustified world = reap-Keeps.holds (record { world = world; trace = [] }) tt
