-- ===== src/Web/Access/Cookies.antt =====
-- src/web/web_validate.h, `cookie_get`: the search always ends.
use project_voyager.Prelude.{
  ℕ, zero, suc, ◌+◌, ◌-◌, ◌≤◌, ◌<◌, ◌≡◌, refl, ◌≢◌, ◌⊎◌, Bool, true, false, Option, none, some, [],
  ◌∷◌, arith, Bytes, length, get_or, drop,
}
use project_voyager.Web.Access.{
  out_of_fuel, is_blank, skip_blanks, take_field, cookie_loop, cookie_get,
}

length-skip_blanks : (p : Bytes) → length (skip_blanks p) ≤ length p
unfolding skip_blanks
length-skip_blanks [] = omega arith
length-skip_blanks (c ∷ p) = ground (arith, length-skip_blanks p)

skip_blanks_first :
    (p : Bytes) → length (skip_blanks p) ≢ 0 → is_blank (get_or (skip_blanks p) 0 0) ≡ false
unfolding skip_blanks
skip_blanks_first [] h = ground arith
skip_blanks_first (c ∷ p) h = ground (arith, skip_blanks_first p)

length-take_field : (key : Bool) (p : Bytes) → length (take_field key p).1 ≤ length p
unfolding take_field
length-take_field key [] = omega arith
length-take_field key (c ∷ p) = ground (arith, length-take_field key p)

-- Of a text that does not begin with a semicolon, the key or the equals sign is taken.
take_field_moves :
    (q : Bytes)
    → length q ≢ 0
    → is_blank (get_or q 0 0) ≡ false
    → (length (take_field true q).1 < length q) ⊎ (get_or (take_field true q).1 0 0 ≡ b'=')
unfolding take_field
take_field_moves [] n b = ground arith
take_field_moves (c ∷ q) n b = ground (arith, length-take_field true q)

drop_one : (p : Bytes) → length (drop 1 p) ≡ length p - 1
drop_one [] = refl
drop_one (c ∷ p) = omega arith

cookie_loop_ends :
    (f : ℕ) (p name : Bytes) (out_size : ℕ)
    → length p < f
    → cookie_loop f p name out_size ≢ out_of_fuel
unfolding cookie_loop
cookie_loop_ends zero p name out_size h = omega arith
cookie_loop_ends (suc f) p name out_size h =
    let q = skip_blanks p in
    let after = (take_field true q).1 in
    let rest = (take_field false (drop 1 after)).1 in
    ground (
      arith,
      length-skip_blanks p,
      skip_blanks_first p,
      take_field_moves q,
      length-take_field true q,
      length-take_field false (drop 1 after),
      drop_one after,
      cookie_loop_ends f after name out_size,
      cookie_loop_ends f rest name out_size,
    )

-- The search for a cookie always gives an answer, whatever the header is.
pub cookie_get_answers :
    (header name : Option Bytes) (out_size : Option ℕ)
    → cookie_get header name out_size ≢ out_of_fuel
unfolding cookie_get
cookie_get_answers (some header) (some name) (some out_size) =
    ground (arith, cookie_loop_ends (length header + 1) header name out_size)
cookie_get_answers (some header) (some name) none = ground arith
cookie_get_answers (some header) none out_size = ground arith
cookie_get_answers none name out_size = ground arith
