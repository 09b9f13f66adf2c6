-- ===== src/Ipstr.antt =====
-- ipstr.cpp: the text of an IPv4 address. A text is the list of its bytes, without the 0 at its end.
pub mod Reading
pub mod Tests
use nodescan.Prelude.{ℕ, ◌+◌, ◌-◌, ◌/◌, ◌%◌, ◌^◌, List, [], ◌∷◌, ◌++◌, take, ltb, if◌then◌else◌}

-- `%d` of `snprintf`, for a number below 1000.
unfoldable pub decimal : ℕ → List ℕ
decimal n =
    if ltb n 10
    then (48 + n) ∷ []
    else if ltb n 100
    then (48 + n / 10) ∷ (48 + n % 10) ∷ []
    else (48 + n / 100) ∷ (48 + n / 10 % 10) ∷ (48 + n % 10) ∷ []

-- The text that the format describes; byte 46 is the point.
unfoldable pub dotted : ℕ → List ℕ
dotted ip =
    decimal (ip / 2 ^ 24)
    ++ (46
        ∷ (decimal (ip / 2 ^ 16 % 256)
            ++ (46 ∷ (decimal (ip / 2 ^ 8 % 256) ++ (46 ∷ decimal (ip % 256))))))

-- `ipstr(ip)`: `snprintf` writes as much of the text as the 18 bytes hold, with the 0 at the end.
unfoldable pub ipstr : ℕ → List ℕ
ipstr ip = take 17 (dotted ip)
