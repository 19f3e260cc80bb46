-- ===== src/Auth.antt =====
-- internal/auth/acl.go and internal/auth/acl_manager.go: access rules and their check.
pub mod Sasl
mod Tests
use mathlib.Core.List.{List, [], ◌∷◌, ◌++◌}
use gomq.Prelude.{
  ◌≡◌, refl, ap, ◌↔◌, ◌⊎◌, inl, inr, Bool, true, false, not, Text, codes, All, arith, Result, ok,
  err, ◌==◌, text_eq, ==_iff, if◌then◌else◌, Bool-cases,
}

-- ResourceType and Permission are strings.
pub record Rule : Type 0 where
  pub user : Text
  pub vhost : Text
  pub resource_type : Text
  pub resource_name : Text
  pub permission : Text
  pub allow : Bool

pub record Access : Type 0 where
  pub user : Text
  pub vhost : Text
  pub resource_type : Text
  pub resource_name : Text
  pub permission : Text

pub data AuthError : Type 0 where
  access_denied : AuthError

abbrev wildcard : Text
wildcard = codes "*"

unfoldable pub match_wildcard : Text → Text → Bool
match_wildcard pattern value = if pattern == wildcard then true else pattern == value

-- Rule.Match, whose arguments are the fields of an access.
unfoldable pub match_rule : Rule → Access → Bool
unfolding match_wildcard
match_rule r a =
    if not (match_wildcard r.user a.user)
    then false
    else if not (match_wildcard r.vhost a.vhost)
    then false
    else if not (match_wildcard r.resource_type a.resource_type)
    then false
    else if not (match_wildcard r.resource_name a.resource_name)
    then false
    else if not (match_wildcard r.permission a.permission)
    then false
    else true

-- The field rules of an ACLManager.
abbrev pub AclManager : Type 0
AclManager = List Rule

unfoldable pub new_acl_manager : List Rule → AclManager
new_acl_manager rules = rules

unfoldable pub check : AclManager → Access → Result AuthError (Unit {0})
unfolding match_rule
check [] a = err access_denied
check (r ∷ rules) a =
    let rest = check rules a in
    if match_rule r a then if r.allow then ok tt else err access_denied else rest

abbrev Covers : Text → Text → Type 0
Covers pattern value = (pattern ≡ wildcard) ⊎ (pattern ≡ value)

-- Every field of the rule is the wildcard or the access's own.
pub record Applies (r : Rule) (a : Access) : Type 0 where
  pub user : Covers r.user a.user
  pub vhost : Covers r.vhost a.vhost
  pub resource_type : Covers r.resource_type a.resource_type
  pub resource_name : Covers r.resource_name a.resource_name
  pub permission : Covers r.permission a.permission

match_wildcard_iff : (p v : Text) → (match_wildcard p v ≡ true) ↔ Covers p v
unfolding match_wildcard
match_wildcard_iff p v = ground (arith, ==_iff p wildcard, ==_iff p v)

match_rule-Applies : (r : Rule) (a : Access) → match_rule r a ≡ true → Applies r a
unfolding match_rule
match_rule-Applies r a h = record {
  user = (match_wildcard_iff r.user a.user).0 (ground arith);
  vhost = (match_wildcard_iff r.vhost a.vhost).0 (ground arith);
  resource_type = (match_wildcard_iff r.resource_type a.resource_type).0 (ground arith);
  resource_name = (match_wildcard_iff r.resource_name a.resource_name).0 (ground arith);
  permission = (match_wildcard_iff r.permission a.permission).0 (ground arith);
}

Applies-match_rule : (r : Rule) (a : Access) → Applies r a → match_rule r a ≡ true
unfolding match_rule
Applies-match_rule r a h = rw (
  (match_wildcard_iff r.user a.user).1 h.user,
  (match_wildcard_iff r.vhost a.vhost).1 h.vhost,
  (match_wildcard_iff r.resource_type a.resource_type).1 h.resource_type,
  (match_wildcard_iff r.resource_name a.resource_name).1 h.resource_name,
  (match_wildcard_iff r.permission a.permission).1 h.permission,
)

-- The first rule of the list that applies to the access, and it allows it.
pub record Allowed (rules : List Rule) (a : Access) : Type 0 where
  pub before : List Rule
  pub rule : Rule
  pub after : List Rule
  pub place : rules ≡ before ++ rule ∷ after
  pub none_before : All (λ r. ¬ Applies r a) before
  pub applies : Applies rule a
  pub allows : rule.allow ≡ true

check-Allowed : (rules : List Rule) (a : Access) → check rules a ≡ ok tt → Allowed rules a
unfolding check
check-Allowed [] a h = cc
check-Allowed (r ∷ rules) a h = elim (Bool-cases (match_rule r a)) [
  | inl m ↦ record {
    before = [];
    rule = r;
    after = rules;
    place = refl;
    none_before = tt;
    applies = match_rule-Applies r a m;
    allows = ground arith;
  }
  | inr n ↦
      let rest = check-Allowed rules a (ground arith) in
      record {
        before = r ∷ rest.before;
        rule = rest.rule;
        after = rest.after;
        place = ap (λ l. r ∷ l) rest.place;
        none_before = (λ p. cc (Applies-match_rule r a p), rest.none_before);
        applies = rest.applies;
        allows = rest.allows;
      }
]

check-after :
    (before after : List Rule) (r : Rule) (a : Access)
    → All (λ r. ¬ Applies r a) before
    → Applies r a
    → r.allow ≡ true
    → check (before ++ r ∷ after) a ≡ ok tt
unfolding check
check-after [] after r a n p h = rw (Applies-match_rule r a p, h)
check-after (q ∷ before) after r a n p h = elim (Bool-cases (match_rule q a)) [
  | inl m ↦ absurd (n.0 (match_rule-Applies q a m))
  | inr m ↦ rw m (check-after before after r a n.1 p h)
]

-- An access is granted exactly where a rule applies to it, that is where each of the rule's fields
-- is `*` or the access's own, the first such rule of the list allows it; all else is refused.
pub check_iff :
    (rules : List Rule) (a : Access) → (check (new_acl_manager rules) a ≡ ok tt) ↔ Allowed rules a
unfolding new_acl_manager
check_iff rules a = (
  check-Allowed rules a,
  λ h. rw h.place (check-after h.before h.after h.rule a h.none_before h.applies h.allows),
)
