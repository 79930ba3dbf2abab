-- ===== src/State/Fields/CompareAndSet.antt =====
-- fleece_state_manager_set_shared_cas.
use fleece.Prelude.{
  ℕ, ◌≡◌, ◌∙◌, refl, Bool, true, false, ◌&&◌, Option, none, some, List, [], ◌∷◌, ◌==◌,
  if◌then◌else◌, arith, inl, inr, Bool-cases, bytes_eq→eq, bytes_eq_self, ◌↔◌, ◌⊎◌,
}
use fleece.State.{StateManager, Code, ok, failed, conflict, shared_owner_id}
use fleece.State.Hash.{hash_name}
use fleece.State.Slots.{Write, upsert_field, bump, find_field_owned}
use fleece.State.Slots.Writes.{IsPacked, upsert_fits}
use fleece.State.Merge.Step.{HasRoom, ready}
use fleece.State.Fields.{
  is_empty, local_write, note_write, set_shared_cas, get_named, expectation_met, live_bytes,
  on_success,
}
use fleece.State.Fields.Reads.{live_bytes-cell, get_named-cell}
use fleece.State.Fields.Writes.{
  room_fits, bump-IsReady, get_named-write, get_named-bump, get_named-note,
}

-- The expectation is met exactly where it is what a reader gets.
pub expectation_met_iff :
    (expected current : Option (List ℕ))
    → (expectation_met expected current ≡ true) ↔ (current ≡ expected)
unfolding expectation_met
expectation_met_iff none none = (λ h. refl, λ h. refl)
expectation_met_iff none (some c) = (λ h. cc, λ h. cc)
expectation_met_iff (some e) none = (λ h. cc, λ h. cc)
expectation_met_iff (some e) (some c) =
    (λ h. ground (arith, bytes_eq→eq c e), λ h. ground (arith, bytes_eq_self c))

on_success_lem : (s : StateManager × Code) → s.1 ≡ ok → on_success s ≡ (note_write s.0, ok)
unfolding on_success
on_success_lem (m, ok) h = refl
on_success_lem (m, failed) h = cc
on_success_lem (m, conflict) h = cc

module _ (alloc : ℕ → Bool) (m : StateManager) (room : HasRoom alloc 1 m)
    (packed : IsPacked m) where
  current_bytes :
      (name : List ℕ)
      → live_bytes m.fields (find_field_owned m.fields (hash_name name) shared_owner_id)
        ≡ get_named alloc m shared_owner_id name
  current_bytes name =
      live_bytes-cell alloc m (hash_name name) shared_owner_id
      ∙ rw (get_named-cell alloc m room.memory shared_owner_id name)

  cas_conflict :
      (name : List ℕ) (expected : Option (List ℕ)) (bytes : List ℕ)
      → is_empty name ≡ false
      → is_empty bytes ≡ false
      → expectation_met expected (get_named alloc m shared_owner_id name) ≡ false
      → set_shared_cas alloc m name expected bytes ≡ (m, conflict)
  unfolding set_shared_cas
  cas_conflict [] expected bytes n e x = cc
  cas_conflict (c ∷ cs) expected bytes n e x =
      rw (e, set_shared_cas) (rw (current_bytes (c ∷ cs), x))

  cas_success :
      (name : List ℕ) (expected : Option (List ℕ)) (bytes : List ℕ) (owner : ℕ) (other : List ℕ)
      → is_empty name ≡ false
      → is_empty bytes ≡ false
      → expectation_met expected (get_named alloc m shared_owner_id name) ≡ true
      → ((set_shared_cas alloc m name expected bytes).1 ≡ ok)
        × (get_named alloc (set_shared_cas alloc m name expected bytes).0 owner other ≡ (
            if hash_name name == hash_name other && shared_owner_id == owner
            then some bytes
            else get_named alloc m owner other))
  unfolding set_shared_cas
  cas_success [] expected bytes owner other n e x = cc
  cas_success (c ∷ cs) expected bytes owner other n e x =
      let r = bump-IsReady alloc 1 m (ready room packed) in
      let w : Write =
        local_write (bump m) (hash_name (c ∷ cs)) shared_owner_id (some (c ∷ cs)) bytes in
      let s = upsert_field alloc (bump m) w in
      rw (e, set_shared_cas)
        (rw (current_bytes (c ∷ cs), x)
          (rw (on_success_lem s (upsert_fits alloc (bump m) w (room_fits alloc (bump m) w r))) (
            refl,
            get_named-note alloc s.0 owner other
                ∙ get_named-write alloc (bump m) w owner other r refl
                ∙ rw (get_named-bump alloc m owner other),
          )))

  -- Where every allocation succeeds, the fields are in the first field_count slots and one more slot
  -- is there, a compare-and-set of a name and a value that are not empty does one of two things. If
  -- the shared field reads as what was expected (as absent, if nothing was), it succeeds, and leaves
  -- the field reading as the new value and every other named field as before. Otherwise it reports a
  -- conflict and leaves the whole store as it was.
  pub compare_and_set :
      (name : List ℕ) (expected : Option (List ℕ)) (bytes : List ℕ) (owner : ℕ) (other : List ℕ)
      → is_empty name ≡ false
      → is_empty bytes ≡ false
      → ((get_named alloc m shared_owner_id name ≡ expected)
          × ((set_shared_cas alloc m name expected bytes).1 ≡ ok)
          × (get_named alloc (set_shared_cas alloc m name expected bytes).0 owner other ≡ (
              if hash_name name == hash_name other && shared_owner_id == owner
              then some bytes
              else get_named alloc m owner other)))
        ⊎ ((¬ (get_named alloc m shared_owner_id name ≡ expected))
            × (set_shared_cas alloc m name expected bytes ≡ (m, conflict)))
  compare_and_set name expected bytes owner other n e =
      let current = get_named alloc m shared_owner_id name in
      let met_iff = expectation_met_iff expected current in
      elim (Bool-cases (expectation_met expected current)) [
        | inl met ↦
            let (done, read) = cas_success name expected bytes owner other n e met in
            inl (met_iff.0 met, done, read)
        | inr unmet ↦ inr (λ h. cc (met_iff.1 h, unmet), cas_conflict name expected bytes n e unmet)
      ]
