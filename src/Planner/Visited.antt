-- ===== src/Planner/Visited.antt =====
-- The set of visited states of src/planner/fleece_planner.c: an open-addressing table of keys.
pub mod Probing
pub mod Fresh
pub mod Refines
use fleece.Prelude.{
  ℕ, zero, suc, ◌+◌, ◌*◌, ◌%◌, ◌^◌, bit_xor, List, [], ◌∷◌, Bool, true, false, ◌&&◌, length, get_or,
  set, replicate, bytes_eq, ◌==◌, if◌then◌else◌,
}

-- VisitedEntry: `key_len` is the length of `key`.
pub record VisitedEntry : Type 0 where
  pub hash : ℕ
  pub key : List ℕ
  pub used : Bool

-- A slot of the cleared table.
abbrev pub free_slot : VisitedEntry
free_slot = record { hash = 0; key = []; used = false }

-- VisitedSet: `cap` is the length of `slots`.
pub record VisitedSet : Type 0 where
  pub slots : List VisitedEntry
  pub count : ℕ

-- fnv1a64
unfoldable pub fnv1a64_from : ℕ → List ℕ → ℕ
fnv1a64_from h [] = h
fnv1a64_from h (b ∷ bs) = fnv1a64_from (bit_xor h b * 1099511628211 % 2 ^ 64) bs

unfoldable pub fnv1a64 : List ℕ → ℕ
unfolding fnv1a64_from
fnv1a64 bs = fnv1a64_from 1469598103934665603 bs

-- visited_init
unfoldable pub visited_init : ℕ → VisitedSet
visited_init max_nodes = record {
  slots = replicate ((max_nodes * 2 + 1) % 2 ^ 32) free_slot;
  count = 0;
}

-- x % n, where `n` is not zero
unfoldable pub wrap : ℕ → ℕ → ℕ
wrap x zero = 0
wrap x (suc n) = x % suc n

-- (slot + probe) % set->cap, where slot is h % set->cap
unfoldable pub probe_at : ℕ → ℕ → ℕ → ℕ
unfolding wrap
probe_at n h probe = wrap ((wrap h n % 2 ^ 32 + probe) % 2 ^ 32) n

-- hash == h && key_len == len && memcmp(key, ...) == 0
unfoldable pub same_key : ℕ → List ℕ → VisitedEntry → Bool
same_key h key e = e.hash == h && bytes_eq e.key key

-- The loop of visited_add from `probe` on, with `n` probes left.
unfoldable pub probe_loop : ℕ → ℕ → VisitedSet → ℕ → List ℕ → VisitedSet × Bool
unfolding probe_at same_key
probe_loop zero probe s h key = (s, false)
probe_loop (suc n) probe s h key =
    let i = probe_at (length s.slots) h probe in
    let e = get_or s.slots i free_slot in
    let rest = probe_loop n (suc probe) s h key in
    let taken : VisitedEntry = record { hash = h; key = key; used = true } in
    if e.used
    then (if same_key h key e then (s, false) else rest)
    else (record { slots = set s.slots i taken; count = s.count + 1 }, true)

-- visited_add
unfoldable pub visited_add : VisitedSet → List ℕ → VisitedSet × Bool
unfolding probe_loop fnv1a64
visited_add s key = probe_loop (length s.slots) 0 s (fnv1a64 key) key
