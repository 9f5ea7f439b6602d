-- ===== src/Proxy/BanRules.antt =====
-- fd_open_data_mcp/proxy/ban_rules.py: the rules that classify a fetch outcome. The table is a list
-- of rows; texts are ASCII. `re.search` is the argument `search`, `none` where the pattern is
-- refused (`re.error`).
pub mod FirstMatch
pub mod Cache
use fd_open_data_mcp.Base.{
  ℕ, ◌+◌, ◌-◌, ◌/◌, Bool, true, false, ◌&&◌, ◌||◌, not, Option, none, some, List, [], ◌∷◌, leb, ltb,
  if◌then◌else◌, Text, codes, ◌==◌, list_eq, nat_eq, Dict, get, put, collect, filter_by, int_of,
  map,
}
use fd_open_data_mcp.Proxy.Circuit.{Classification, ok, transient, ban, blocked, permanent}
use fd_open_data_mcp.Proxy.Circuit.Scan.{starts_with}

pub record BanRule : Type 0 where
  pub rule_source : Text
  pub rule_type : Text
  pub pattern : Text
  pub classification : Text
  pub streak_min : ℕ
  pub priority : ℕ
  pub enabled : Bool

pub record Rule : Type 0 where
  pub streak_min : ℕ
  pub rule_type : Text
  pub pattern : Text
  pub class : Classification

-- The membership test of `CLASSIFICATIONS`, with the value that the text stands for.
unfoldable pub classification_of : Text → Option Classification
classification_of t =
    if t == codes "ok"
    then some ok
    else if t == codes "transient"
    then some transient
    else if t == codes "ban"
    then some ban
    else if t == codes "blocked"
    then some blocked
    else if t == codes "permanent"
    then some permanent
    else none

-- `order_by(BanRule.priority.desc())`; rows of one priority stay in the table's order.
unfoldable pub insert_by_priority : BanRule → List BanRule → List BanRule
insert_by_priority r [] = r ∷ []
insert_by_priority r (x ∷ xs) =
    if ltb r.priority x.priority then x ∷ insert_by_priority r xs else r ∷ x ∷ xs

unfoldable pub by_priority : List BanRule → List BanRule
unfolding insert_by_priority
by_priority [] = []
by_priority (r ∷ rs) = insert_by_priority r (by_priority rs)

abbrev pub applies_to : Text → BanRule → Bool
applies_to source br = br.rule_source == source && br.enabled

abbrev pub known_rule : BanRule → Option Classification → Option Rule
known_rule br none = none
known_rule br (some c) = some (record {
  streak_min = br.streak_min;
  rule_type = br.rule_type;
  pattern = br.pattern;
  class = c;
})

abbrev pub rule_of : BanRule → Option Rule
rule_of br = known_rule br (classification_of br.classification)

unfoldable pub query_rules : List BanRule → Text → List Rule
unfolding by_priority
query_rules table source = collect rule_of (by_priority (filter_by (applies_to source) table))

-- `REAL_SOURCE_FALLBACK.get(source)`
unfoldable pub real_source_fallback : Text → Option Text
real_source_fallback source =
    if source == codes "eastmoney"
    then some (codes "akshare")
    else if source == codes "tencent"
    then some (codes "akshare")
    else if source == codes "sina"
    then some (codes "akshare")
    else if source == codes "yahoo_finance"
    then some (codes "yfinance")
    else none

abbrev pub Cache : Type 0
Cache = Dict Text (ℕ × List Rule)

abbrev pub ttl : ℕ
ttl = 60

-- The rules of the source, or those of its library if it has none.
abbrev pub or_library : List BanRule → Text → Option Text → List Rule → List Rule
or_library table source (some library) [] =
    if not (library == source) then query_rules table library else []
or_library table source fallback rules = rules

unfoldable pub resolve_rules : List BanRule → Text → List Rule
resolve_rules table source =
    or_library table source (real_source_fallback source) (query_rules table source)

abbrev pub fresh_entry : ℕ → Option (ℕ × List Rule) → Option (List Rule)
fresh_entry now none = none
fresh_entry now (some (loaded_at, rules)) = if ltb (now - loaded_at) ttl then some rules else none

abbrev load_from : List BanRule → ℕ → Text → Cache → Option (List Rule) → List Rule × Cache
load_from table now source cache (some rules) = (rules, cache)
load_from table now source cache none =
    let rules = resolve_rules table source in (rules, put cache source (now, rules))

unfoldable pub load_rules : List BanRule → ℕ → Text → Cache → List Rule × Cache
load_rules table now source cache =
    load_from table now source cache (fresh_entry now (get cache source))

abbrev is_space : ℕ → Bool
is_space c = c == 32 || ((leb 9 c && leb c 13) || (leb 28 c && leb c 31))

unfoldable pub lstrip : Text → Text
lstrip [] = []
lstrip (c ∷ t) = let rest = lstrip t in if is_space c then rest else c ∷ t

unfoldable pub rstrip : Text → Text
rstrip [] = []
rstrip (c ∷ t) =
    let rest = rstrip t in elim rest [ [] ↦ if is_space c then [] else c ∷ [] | d ∷ r ↦ c ∷ d ∷ r ]

unfoldable pub lower_char : ℕ → ℕ
lower_char c = if leb b'A' c && leb c b'Z' then c + 32 else c

unfoldable pub lower : Text → Text
unfolding lower_char
lower = map lower_char

unfoldable pub ends_with_xx : Text → Bool
ends_with_xx [] = false
ends_with_xx (c ∷ t) = (c ∷ t) == codes "xx" || ends_with_xx t

abbrev is_number : Option ℕ → ℕ → Bool
is_number none n = false
is_number (some m) n = n == m

abbrev head_text : Text → Text
head_text [] = []
head_text (c ∷ t) = c ∷ []

unfoldable pub status_matches : Text → Option ℕ → Bool
unfolding lstrip rstrip lower ends_with_xx int_of
status_matches pattern none = false
status_matches pattern (some http_status) =
    let p = lower (rstrip (lstrip pattern)) in
    if ends_with_xx p
    then is_number (int_of (head_text p)) (http_status / 100)
    else is_number (int_of p) http_status

-- `pattern in text`
unfoldable pub is_substring : Text → Text → Bool
is_substring p [] = starts_with p []
is_substring p (c ∷ t) = starts_with p (c ∷ t) || is_substring p t

abbrev is_empty : Text → Bool
is_empty [] = true
is_empty _ = false

unfoldable pub error_matches : Text → Option Text → Bool
error_matches pattern none = false
error_matches pattern (some error) =
    if is_empty error then false else is_substring (lower pattern) (lower error)

abbrev searched : Option Bool → Text → Text → Bool
searched none pattern body = is_substring pattern body
searched (some found) pattern body = found

unfoldable pub body_matches : (Text → Text → Option Bool) → Text → Option Text → Bool
body_matches search pattern none = false
body_matches search pattern (some body) =
    if is_empty body then false else searched (search pattern body) pattern body

pub record FetchOutcome : Type 0 where
  pub http_status : Option ℕ
  pub error : Option Text
  pub body : Option Text

unfoldable pub rule_matches : (Text → Text → Option Bool) → Rule → FetchOutcome → Bool
rule_matches search rule o =
    (rule.rule_type == codes "status" && status_matches rule.pattern o.http_status)
    || ((rule.rule_type == codes "error" && error_matches rule.pattern o.error)
        || (rule.rule_type == codes "body" && body_matches search rule.pattern o.body))

-- `if rule["streak_min"] and fail_streak < rule["streak_min"]: continue`
abbrev pub is_gated : Rule → ℕ → Bool
is_gated rule fail_streak = not (rule.streak_min == 0) && ltb fail_streak rule.streak_min

abbrev pub default_class : Option ℕ → Classification
default_class none = transient
default_class (some s) = if leb 200 s && ltb s 300 then ok else transient

unfoldable pub classify_loop :
    (Text → Text → Option Bool) → List Rule → FetchOutcome → ℕ → Classification
classify_loop search [] o fail_streak = default_class o.http_status
classify_loop search (rule ∷ rules) o fail_streak =
    let rest = classify_loop search rules o fail_streak in
    if is_gated rule fail_streak
    then rest
    else if rule_matches search rule o
    then rule.class
    else rest

unfoldable pub classify :
    (Text → Text → Option Bool)
    → List BanRule
    → ℕ
    → Text
    → Cache
    → FetchOutcome
    → ℕ
    → Classification × Cache
unfolding load_rules classify_loop
classify search table now source cache o fail_streak =
    let (rules, cache') = load_rules table now source cache in
    (classify_loop search rules o fail_streak, cache')
