-- ===== src/Doubles/Order.antt =====
-- The comparisons of doubles as those of their ranks.
use fleece.Prelude.{ℕ, ◌≤◌, ◌<◌, ◌≡◌, true, false, arith}
use fleece.Doubles.{dbl_le, dbl_lt, dbl_is_nan, dbl_rank}

module _ (a b : ℕ) where
  pub dbl_le→le : dbl_le a b ≡ true → dbl_rank a ≤ dbl_rank b
  unfolding dbl_le
  dbl_le→le h = ground arith

  pub dbl_lt→lt : dbl_lt a b ≡ true → dbl_rank a < dbl_rank b
  unfolding dbl_lt
  dbl_lt→lt h = ground arith

  module _ (na : dbl_is_nan a ≡ false) (nb : dbl_is_nan b ≡ false) where
    pub dbl_le-false : dbl_le a b ≡ false → dbl_rank b < dbl_rank a
    unfolding dbl_le
    dbl_le-false h = ground arith

    pub dbl_le-true : dbl_rank a ≤ dbl_rank b → dbl_le a b ≡ true
    unfolding dbl_le
    dbl_le-true h = ground arith

    pub dbl_lt-false : dbl_lt a b ≡ false → dbl_rank b ≤ dbl_rank a
    unfolding dbl_lt
    dbl_lt-false h = ground arith

pub dbl_lt_trans : (a b c : ℕ) → dbl_lt a b ≡ true → dbl_lt b c ≡ true → dbl_lt a c ≡ true
unfolding dbl_lt
dbl_lt_trans a b c p q = ground arith

pub dbl_lt_self : (a : ℕ) → dbl_lt a a ≡ false
unfolding dbl_lt
dbl_lt_self a = ground arith

-- What is not above `a` is not above anything that is.
pub dbl_lt_less : (a b c : ℕ) → dbl_lt a b ≡ true → dbl_lt a c ≡ false → dbl_lt b c ≡ false
unfolding dbl_lt
dbl_lt_less a b c p q = ground arith
