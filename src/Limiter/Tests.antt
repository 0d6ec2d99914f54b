-- ===== src/Limiter/Tests.antt =====
-- A limiter with one request in the window and one before it.
use pay_shield.Prelude.{◌-◌, ◌≡◌, String, false, none, [], ◌∷◌, arith, ltb, str_eq}
use pay_shield.Limiter.{Store, is_allowed, get_remaining, reset}
use pay_shield.Limiter.Window.{is_allowed-get_remaining}

abbrev store : Store
store k = 30 ∷ 90 ∷ []

is_allowed-get_remaining_example :
    let before = get_remaining none 100 "ip" 2 60 store in
    let (allowed, s') = is_allowed none 100 "ip" 2 60 store in
    (allowed ≡ ltb 0 before)
    × (get_remaining none 100 "ip" 2 60 s' ≡ before - 1)
    × ((k : String) → str_eq "ip" k ≡ false → s' k ≡ store k)
    × (get_remaining none 100 "ip" 2 60 (reset "ip" s') ≡ 2)
is_allowed-get_remaining_example = is_allowed-get_remaining 100 "ip" 2 60 store (omega arith)
