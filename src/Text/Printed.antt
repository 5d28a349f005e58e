-- ===== src/Text/Printed.antt =====
-- Printed numbers hold no NUL, and are read back.
use up2date_cpp.Base.{ℕ, zero, suc, ◌+◌, ◌/◌, ◌%◌, ◌≡◌, some, [], ◌∷◌, arith}
use up2date_cpp.Base.Int.{pos}
use up2date_cpp.Text.{Text, Every, is_not_nul, c_str, c_str-eq_self}
use up2date_cpp.Text.Scan.{digits_onto, show_onto, to_string, scan_int, scan_int-show_onto}

digits_onto-Every :
    (fuel n : ℕ) (rest : Text) → Every is_not_nul rest → Every is_not_nul (digits_onto fuel n rest)
unfolding digits_onto
digits_onto-Every zero n rest h = h
digits_onto-Every (suc fuel) n rest h =
    ground (arith, digits_onto-Every fuel (n / 10) ((48 + n % 10) ∷ rest))

pub show_onto-Every :
    (n : ℕ) (rest : Text) → Every is_not_nul rest → Every is_not_nul (show_onto n rest)
show_onto-Every n rest h = digits_onto-Every (suc n) n rest h

pub c_str-to_string : (n : ℕ) → c_str (to_string (pos n)) ≡ to_string (pos n)
unfolding to_string
c_str-to_string n = c_str-eq_self (show_onto n []) (show_onto-Every n [] tt)

pub scan_int-to_string : (n : ℕ) → scan_int (to_string (pos n)) ≡ some (pos n, [])
unfolding to_string
scan_int-to_string n = scan_int-show_onto n [] tt
