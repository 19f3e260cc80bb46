-- ===== src/Auth/Tests.antt =====
-- A run of the access check on two rules.
use gomq.Prelude.{◌≡◌, ◌↔◌, true, false, [], ◌∷◌, codes, ok}
use gomq.Auth.{Rule, Access, new_acl_manager, check, Allowed, check_iff}

-- Nobody but alice writes to anything.
abbrev alice_writes : Rule
alice_writes = record {
  user = codes "alice";
  vhost = codes "*";
  resource_type = codes "*";
  resource_name = codes "*";
  permission = codes "write";
  allow = true;
}

abbrev no_writes : Rule
no_writes = record {
  user = codes "*";
  vhost = codes "*";
  resource_type = codes "*";
  resource_name = codes "*";
  permission = codes "write";
  allow = false;
}

abbrev write_by_alice : Access
write_by_alice = record {
  user = codes "alice";
  vhost = codes "/";
  resource_type = codes "queue";
  resource_name = codes "q";
  permission = codes "write";
}

check_iff_example :
    (check (new_acl_manager (alice_writes ∷ no_writes ∷ [])) write_by_alice ≡ ok tt)
    ↔ Allowed (alice_writes ∷ no_writes ∷ []) write_by_alice
check_iff_example = check_iff (alice_writes ∷ no_writes ∷ []) write_by_alice
