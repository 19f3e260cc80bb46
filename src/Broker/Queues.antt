-- ===== src/Broker/Queues.antt =====
-- internal/server/queue.go and queue_manager.go: the queues of a virtual host by name. Its mutex makes
-- each call atomic.
use gomq.Prelude.{
  Bool, true, false, not, ◌||◌, List, [], ◌∷◌, ◌++◌, Text, length, ℕ, map, Option, none, some,
  Result, ok, err, ◌==◌, nat_eq, text_eq, if◌then◌else◌,
}
use gomq.Prelude.GoMap.{GoMap, lookup, insert, remove}
use gomq.Routing.Binding.{Any, Args}

pub data QueueState : Type 0 where
  queue_active queue_flow queue_empty : QueueState

-- A connection stands by its identity; `none` is nil.
abbrev pub Owner : Type 0
Owner = Option ℕ

pub record Queue : Type 0 where
  pub name : Text
  pub durable : Bool
  pub exclusive : Bool
  pub auto_delete : Bool
  pub args : Args
  pub state : QueueState
  pub owner : Owner

unfoldable pub new_queue : Text → Bool → Bool → Bool → Option Args → Owner → Queue
new_queue name durable exclusive auto_delete args owner = record {
  name = name;
  durable = durable;
  exclusive = exclusive;
  auto_delete = auto_delete;
  args = elim args [ none ↦ [] | some a ↦ a ];
  state = queue_active;
  owner = owner;
}

unfoldable pub set_state : QueueState → Queue → Queue
set_state s q = record q { state = s }

unfoldable pub bool_ne : Bool → Bool → Bool
bool_ne true b = not b
bool_ne false b = b

-- The loop of argsEqual; `print` is fmt.Sprintf("%v").
unfoldable pub args_in : (Any → Text) → Args → Args → Bool
unfolding lookup
args_in print [] b = true
args_in print ((k, av) ∷ a) b =
    let rest = args_in print a b in
    elim (lookup k b) [ none ↦ false | some bv ↦ if print av == print bv then rest else false ]

unfoldable pub args_equal : (Any → Text) → Args → Args → Bool
unfolding args_in
args_equal print a b = if not (length a == length b) then false else args_in print a b

-- A nil map of arguments has no keys.
unfoldable pub match_args : (Any → Text) → Bool → Bool → Bool → Option Args → Queue → Bool
unfolding bool_ne args_equal
match_args print durable exclusive auto_delete args q =
    if bool_ne q.durable durable
      || bool_ne q.exclusive exclusive
      || bool_ne q.auto_delete auto_delete
    then false
    else args_equal print q.args (elim args [ none ↦ [] | some a ↦ a ])

-- What the manager asks of its store and its metrics; an error of the store is only logged.
pub data QueueCall : Type 0 where
  save_queue : Text → Bool → Bool → Bool → Option Args → QueueCall
  delete_queue_meta : Text → QueueCall
  queue_declared queue_deleted : QueueCall

pub record QueueManager : Type 0 where
  pub queues : GoMap Text Queue
  pub has_store : Bool
  pub calls : List QueueCall

pub data QueueError : Type 0 where
  different_args queue_not_found : QueueError

unfoldable pub new_queue_manager_with_store : Bool → QueueManager
new_queue_manager_with_store has_store = record { queues = []; has_store = has_store; calls = [] }

-- A call of the metrics, and one of the store where there is one.
unfoldable pub call : QueueCall → QueueCall → QueueManager → QueueManager
call metric c m = record m { calls = m.calls ++ metric ∷ (if m.has_store then c ∷ [] else []) }

unfoldable pub declare :
    (Any → Text)
    → Text
    → Bool
    → Bool
    → Bool
    → Option Args
    → Owner
    → QueueManager
    → QueueManager × Result QueueError Queue
unfolding lookup insert match_args new_queue call
declare print name durable exclusive auto_delete args owner m = elim (lookup name m.queues) [
  | some q ↦ (
    m,
    if not (match_args print durable exclusive auto_delete args q)
        then err different_args
        else ok q,
  )
  | none ↦
      let q = new_queue name durable exclusive auto_delete args owner in
      (
        call queue_declared (save_queue name durable exclusive auto_delete args)
            (record m { queues = insert name q m.queues }),
        ok q,
      )
]

unfoldable pub delete : Text → QueueManager → QueueManager × Result QueueError (Unit {0})
unfolding lookup remove call
delete name m = elim (lookup name m.queues) [
  | none ↦ (m, err queue_not_found)
  | some _ ↦ (
    call queue_deleted (delete_queue_meta name) (record m { queues = remove name m.queues }),
    ok tt,
  )
]

unfoldable pub get : Text → QueueManager → Option Queue
unfolding lookup
get name m = lookup name m.queues

unfoldable pub count : QueueManager → ℕ
count m = length m.queues

unfoldable pub list : QueueManager → List Queue
list m = map (λ p. p.1) m.queues

unfoldable pub same_owner : Owner → Owner → Bool
same_owner none none = true
same_owner (some a) (some b) = a == b
same_owner _ _ = false

-- The names of the queues that the connection owns.
unfoldable pub owned : Owner → GoMap Text Queue → List Text
unfolding same_owner
owned conn [] = []
owned conn ((name, q) ∷ m) =
    let rest = owned conn m in if same_owner q.owner conn then name ∷ rest else rest

unfoldable pub remove_names : List Text → GoMap Text Queue → GoMap Text Queue
unfolding remove
remove_names [] m = m
remove_names (name ∷ names) m = remove_names names (remove name m)

unfoldable pub remove_exclusive : Owner → QueueManager → QueueManager
unfolding owned remove_names
remove_exclusive conn m = record m { queues = remove_names (owned conn m.queues) m.queues }
