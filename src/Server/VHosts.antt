-- ===== src/Server/VHosts.antt =====
-- internal/server/vhost.go: the virtual hosts. The mutex makes each call atomic.
use gomq.Prelude.{
  ℕ, ◌||◌, Bool, true, false, List, [], ◌∷◌, Text, codes, length, map, Option, none, some, ◌==◌,
  text_eq, if◌then◌else◌,
}
use gomq.Prelude.GoMap.{GoMap, lookup, insert, remove}

pub record VHost : Type 0 where
  pub name : Text
  pub description : Text
  pub created_at : ℕ

abbrev pub VHostManager : Type 0
VHostManager = GoMap Text VHost

abbrev default_name : Text
default_name = codes "/"

-- `now` is the time of the call.
unfoldable pub new_vhost_manager : ℕ → VHostManager
new_vhost_manager now =
    (
      default_name,
      record { name = default_name; description = codes "Default virtual host"; created_at = now },
    )
    ∷ []

unfoldable pub create_vhost : Text → Text → ℕ → VHostManager → VHostManager × Option VHost
unfolding lookup insert
create_vhost name description now m =
    if name == [] || name == default_name then (m, none) else elim (lookup name m) [
      | some _ ↦ (m, none)
      | none ↦
          let vh : VHost = record { name = name; description = description; created_at = now } in
          (insert name vh m, some vh)
    ]

unfoldable pub delete_vhost : Text → VHostManager → VHostManager × Bool
unfolding lookup remove
delete_vhost name m =
    if name == default_name
    then (m, false)
    else elim (lookup name m) [ none ↦ (m, false) | some _ ↦ (remove name m, true) ]

unfoldable pub get_vhost : Text → VHostManager → Option VHost
unfolding lookup
get_vhost name m = lookup name m

unfoldable pub list_vhosts : VHostManager → List VHost
list_vhosts m = map (λ (e : Text × VHost). e.1) m

unfoldable pub count_vhosts : VHostManager → ℕ
count_vhosts m = length m
