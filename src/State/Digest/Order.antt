-- ===== src/State/Digest/Order.antt =====
-- The digest of a stream and the slots that its entries stand in.
use fleece.Prelude.{ℕ, ◌≡◌, ◌∙◌, refl, ap, List, ◌∷◌, if◌then◌else◌, inl, inr, Bool-cases}
use fleece.Prelude.Sums.{add64, add64_left_comm}
use mathlib.Core.List.{Permᴰ}
use fleece.State.{StateManager, FieldEntry}
use fleece.State.Digest.{digest_loop, live_in_stream, entry_digest, compute_stream_digest}

-- What one slot does to the sum.
unfoldable folded : ℕ → FieldEntry → ℕ → ℕ
folded owner f sum = if live_in_stream owner f then add64 sum (entry_digest f) else sum

folded-swap :
    (owner : ℕ) (f g : FieldEntry) (sum : ℕ)
    → folded owner f (folded owner g sum) ≡ folded owner g (folded owner f sum)
unfolding folded
folded-swap owner f g sum = elim (Bool-cases (live_in_stream owner f)) [
  | inl p ↦ elim (Bool-cases (live_in_stream owner g)) [
    | inl q ↦ rw (p, q) (add64_left_comm sum (entry_digest g) (entry_digest f))
    | inr q ↦ rw (p, q) refl
  ]
  | inr p ↦ rw p refl
]

digest_loop-Perm :
    (owner : ℕ) (fs gs : List FieldEntry) (sum : ℕ)
    → Permᴰ fs gs
    → digest_loop owner fs sum ≡ digest_loop owner gs sum
unfolding digest_loop folded
digest_loop-Perm owner fs gs sum Permᴰ.nil = refl
digest_loop-Perm owner (f ∷ fs) (g ∷ gs) sum (Permᴰ.cons e p) =
    ap (λ x. digest_loop owner fs (folded owner x sum)) e
    ∙ digest_loop-Perm owner fs gs (folded owner g sum) p
digest_loop-Perm owner (f ∷ g ∷ fs) (g' ∷ f' ∷ gs) sum (Permᴰ.swap e d) =
    ap (digest_loop owner fs) (folded-swap owner g f sum)
    ∙ ap (λ x. digest_loop owner fs (folded owner x (folded owner g sum))) e
    ∙ ap (λ y. digest_loop owner fs (folded owner f' (folded owner y sum))) d
digest_loop-Perm owner fs gs sum (Permᴰ.trans {l₂} p q) =
    digest_loop-Perm owner fs l₂ sum p ∙ digest_loop-Perm owner l₂ gs sum q

-- Two stores that hold the same entries, in whatever slots, advertise the same digest for every
-- stream.
pub compute_stream_digest-Perm :
    (m n : StateManager) (owner : ℕ)
    → Permᴰ m.fields n.fields
    → compute_stream_digest m owner ≡ compute_stream_digest n owner
unfolding compute_stream_digest
compute_stream_digest-Perm m n owner p = digest_loop-Perm owner m.fields n.fields 0 p
