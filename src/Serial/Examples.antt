-- ===== src/Serial/Examples.antt =====
-- The ring of usr/pl011/pl011.c with two characters around the end of its buffer.
use bradyp_os.Base.{◌≡◌, refl, [], ◌∷◌, arith}
use bradyp_os.Base.Array.{Array}
use bradyp_os.Serial.{RxRing, rxrb_len, pl011_handle_read_impl}
use bradyp_os.Serial.Ring.{IsRing, contents}
use bradyp_os.Serial.Reading.{first_of, rest_of, receive, read_impl-contents}

abbrev letters : Array
letters i = i

abbrev around : RxRing
around = record { buf = letters; head = 1; tail = 127 }

contents-around : contents around ≡ 127 ∷ 0 ∷ []
unfolding rxrb_len
contents-around = refl

around-IsRing : IsRing around
around-IsRing = record { head = omega arith; tail = omega arith }

read_impl-contents_example :
    IsRing (pl011_handle_read_impl around (65 ∷ 0x142 ∷ []) 2).1
    × ((pl011_handle_read_impl around (65 ∷ 0x142 ∷ []) 2).0
        ≡ first_of 2 (receive (contents around) (65 ∷ 0x142 ∷ [])))
    × (contents (pl011_handle_read_impl around (65 ∷ 0x142 ∷ []) 2).1
        ≡ rest_of 2 (receive (contents around) (65 ∷ 0x142 ∷ [])))
read_impl-contents_example =
    read_impl-contents around (65 ∷ 0x142 ∷ []) 2 around-IsRing (omega arith)
