-- ===== src/Resp.antt =====
-- lib/resp/value.go: the typed replies that the command engine gives to every front end.
use ultima.Base.{ℕ, Bool, List, [], ◌∷◌, Bytes, codes, String}
use ultima.Base.Int.{ℤ}

-- A double is its IEEE 754 bit pattern.
mutual
  pub data Value : Type 0 where
    null : Value
    simple_string error blob_string big_number : Bytes → Value
    int : ℤ → Value
    double : ℕ → Value
    bool : Bool → Value
    verbatim : Bytes → Bytes → Value
    array dictionary unique push_frame : Values → Value

  pub data Values : Type 0 where
    nil : Values
    cons : Value → Values → Values

abbrev pub values : List Value → Values
values [] = nil
values (v ∷ vs) = cons v (values vs)

-- resp.Err, resp.Simple and resp.Arr
abbrev pub err : String → Value
err s = error (codes s)

abbrev pub simple : String → Value
simple s = simple_string (codes s)

abbrev pub arr : List Value → Value
arr vs = array (values vs)
