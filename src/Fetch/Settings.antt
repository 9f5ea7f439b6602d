-- ===== src/Fetch/Settings.antt =====
-- Python's `int` of a setting, as fd_open_data_mcp/fetch/demote.py and suppress.py read theirs. The
-- text is ASCII. Both take the larger of the number and one, so a negative number counts as zero.
use fd_open_data_mcp.Base.{
  nat_beq, if◌then◌else◌, map_option, is_digit, int_of, Text, Bool, false, ◌&&◌, Option, none, ℕ,
  [], ◌∷◌,
}
use fd_open_data_mcp.Proxy.BanRules.{lstrip, rstrip}

-- The text without the underscores that stand between two digits; the flag tells whether a digit
-- stands before.
unfoldable pub join_digits : Bool → Text → Text
join_digits prev [] = []
join_digits prev (c ∷ []) = c ∷ []
join_digits prev (c ∷ d ∷ t) =
    let joined = join_digits false (d ∷ t) in
    let kept = join_digits (is_digit c) (d ∷ t) in
    if nat_beq c 95 && (prev && is_digit d) then joined else c ∷ kept

abbrev unsigned : Text → Option ℕ
unsigned t = int_of (join_digits false t)

unfoldable pub signed : Text → Option ℕ
unfolding join_digits
signed [] = none
signed (c ∷ t) =
    if nat_beq c 43
    then unsigned t
    else if nat_beq c 45
    then map_option (λ n. 0) (unsigned t)
    else unsigned (c ∷ t)

-- `int(raw)`, zero where it is negative; `none` where it raises.
unfoldable pub int_setting : Text → Option ℕ
unfolding signed
int_setting raw = signed (rstrip (lstrip raw))
