-- ===== src/Text/Order.antt =====
-- The laws of `operator<` on strings that ordered maps rest on.
use up2date_cpp.Base.{◌≡◌, true, false, [], ◌∷◌, arith}
use up2date_cpp.Text.{Text, less, equal, equal_iff}

pub less_irrefl : (a : Text) → less a a ≡ false
unfolding less
less_irrefl [] = ground arith
less_irrefl (x ∷ a) = ground (arith, less_irrefl a)

pub less_asymm : (a b : Text) → less a b ≡ true → less b a ≡ false
unfolding less
less_asymm [] [] h = ground arith
less_asymm [] (y ∷ b) h = ground arith
less_asymm (x ∷ a) [] h = ground arith
less_asymm (x ∷ a) (y ∷ b) h = ground (arith, less_asymm a b)

pub less_trans : (a b c : Text) → less a b ≡ true → less b c ≡ true → less a c ≡ true
unfolding less
less_trans [] [] c h k = ground arith
less_trans [] (y ∷ b) [] h k = ground arith
less_trans [] (y ∷ b) (z ∷ c) h k = ground arith
less_trans (x ∷ a) [] c h k = ground arith
less_trans (x ∷ a) (y ∷ b) [] h k = ground arith
less_trans (x ∷ a) (y ∷ b) (z ∷ c) h k = ground (arith, less_trans a b c)

-- A string that is less than another differs from it.
pub less-equal : (a b : Text) → less a b ≡ true → equal a b ≡ false
less-equal a b h = ground (arith, equal_iff a b, less_irrefl a)
