-- ===== src/Auth/Hashes.antt =====
-- The hashes that a secret is checked against where there is none of a user's
-- (apps/api/src/auth/auth.service.ts).
use coffee_shop_pos_multi_ag.Base.{[], ◌∷◌}
use coffee_shop_pos_multi_ag.Text.{Text}

unfoldable pub dummy_password_hash : Text
dummy_password_hash =
    b'$' ∷ b'a' ∷ b'r' ∷ b'g' ∷ b'o' ∷ b'n' ∷ b'2' ∷ b'i' ∷ b'd' ∷ b'$' ∷ b'v' ∷ b'=' ∷ b'1' ∷ b'9'
    ∷ b'$' ∷ b'm' ∷ b'=' ∷ b'6' ∷ b'5' ∷ b'5' ∷ b'3' ∷ b'6' ∷ b',' ∷ b'p' ∷ b'=' ∷ b'4' ∷ b','
    ∷ b't' ∷ b'=' ∷ b'3' ∷ b'$' ∷ b'J' ∷ b'h' ∷ b'M' ∷ b'Q' ∷ b'S' ∷ b'B' ∷ b'w' ∷ b'J' ∷ b'o'
    ∷ b'G' ∷ b'5' ∷ b'7' ∷ b'Z' ∷ b'J' ∷ b'A' ∷ b'Q' ∷ b'y' ∷ b'm' ∷ b'8' ∷ b'M' ∷ b'4' ∷ b'w'
    ∷ b'$' ∷ b'6' ∷ b'/' ∷ b'N' ∷ b'1' ∷ b'/' ∷ b'P' ∷ b'+' ∷ b'w' ∷ b'O' ∷ b'b' ∷ b'G' ∷ b'q'
    ∷ b'z' ∷ b'G' ∷ b'A' ∷ b'F' ∷ b'1' ∷ b'x' ∷ b'3' ∷ b'C' ∷ b'F' ∷ b'2' ∷ b'W' ∷ b'q' ∷ b'O'
    ∷ b'k' ∷ b'O' ∷ b'n' ∷ b'H' ∷ b'j' ∷ b'2' ∷ b'T' ∷ b'y' ∷ b'p' ∷ b't' ∷ b'x' ∷ b'K' ∷ b'Z'
    ∷ b'M' ∷ b'g' ∷ b'A' ∷ b'd' ∷ b'U' ∷ []

unfoldable pub dummy_pin_hash : Text
dummy_pin_hash =
    b'$' ∷ b'a' ∷ b'r' ∷ b'g' ∷ b'o' ∷ b'n' ∷ b'2' ∷ b'i' ∷ b'd' ∷ b'$' ∷ b'v' ∷ b'=' ∷ b'1' ∷ b'9'
    ∷ b'$' ∷ b'm' ∷ b'=' ∷ b'6' ∷ b'5' ∷ b'5' ∷ b'3' ∷ b'6' ∷ b',' ∷ b'p' ∷ b'=' ∷ b'4' ∷ b','
    ∷ b't' ∷ b'=' ∷ b'3' ∷ b'$' ∷ b'W' ∷ b'Q' ∷ b'A' ∷ b'v' ∷ b'o' ∷ b'w' ∷ b'9' ∷ b'W' ∷ b'K'
    ∷ b'1' ∷ b'z' ∷ b'a' ∷ b'Z' ∷ b'2' ∷ b'K' ∷ b'A' ∷ b'j' ∷ b'y' ∷ b'd' ∷ b'5' ∷ b'H' ∷ b'g'
    ∷ b'$' ∷ b'q' ∷ b'N' ∷ b'i' ∷ b'D' ∷ b'l' ∷ b'W' ∷ b'c' ∷ b'A' ∷ b'Q' ∷ b'z' ∷ b'y' ∷ b'b'
    ∷ b'L' ∷ b'0' ∷ b'O' ∷ b'v' ∷ b'v' ∷ b'4' ∷ b'o' ∷ b'Q' ∷ b'd' ∷ b'R' ∷ b'Q' ∷ b'X' ∷ b's'
    ∷ b'J' ∷ b'G' ∷ b'I' ∷ b'n' ∷ b'r' ∷ b'x' ∷ b'k' ∷ b'+' ∷ b'A' ∷ b'a' ∷ b'C' ∷ b'0' ∷ b'M'
    ∷ b'E' ∷ b'k' ∷ b'e' ∷ b's' ∷ b'4' ∷ []
