-- ===== src/Broker/Store.antt =====
-- internal/server/message_store.go: the messages of each queue. Its mutex makes each call atomic.
use gomq.Prelude.{
  ℕ, ◌+◌, ◌-◌, Bool, List, [], ◌∷◌, ◌++◌, Text, length, take, drop, Option, none, some, text_eq,
  leb, if◌then◌else◌, min,
}
use gomq.Prelude.GoMap.{GoMap, lookup, insert, remove, lookup_or}
use gomq.Broker.Message.{Message}
use gomq.Broker.Priority.{insert_by_priority}

-- The field queues.
abbrev pub MessageStore : Type 0
MessageStore = GoMap Text (List Message)

unfoldable pub new_message_store : MessageStore
new_message_store = []

-- s.queues[queueName]
unfoldable pub queue_of : Text → MessageStore → List Message
unfolding lookup_or lookup
queue_of q s = lookup_or [] q s

unfoldable pub enqueue : Text → Message → MessageStore → MessageStore
unfolding queue_of insert
enqueue q msg s = insert q (queue_of q s ++ msg ∷ []) s

unfoldable pub dequeue : Text → MessageStore → MessageStore × Option Message
unfolding queue_of insert
dequeue q s = elim (queue_of q s) [ [] ↦ (s, none) | m ∷ rest ↦ (insert q rest s, some m) ]

unfoldable pub peek : Text → MessageStore → Option Message
unfolding queue_of
peek q s = elim (queue_of q s) [ [] ↦ none | m ∷ rest ↦ some m ]

unfoldable pub len : Text → MessageStore → ℕ
unfolding queue_of
len q s = length (queue_of q s)

unfoldable pub purge : Text → MessageStore → MessageStore
unfolding remove
purge q s = remove q s

-- The loop of RemoveExpired: what is alive and what has expired, each in the queue's order.
unfoldable pub sift : (Message → Bool) → List Message → List Message × List Message
sift is_expired [] = ([], [])
sift is_expired (m ∷ queue) =
    let (alive, expired) = sift is_expired queue in
    if is_expired m then (alive, m ∷ expired) else (m ∷ alive, expired)

-- The store, and the messages that go to the callback `onExpired`, in order.
unfoldable pub remove_expired : Text → (Message → Bool) → MessageStore → MessageStore × List Message
unfolding queue_of sift insert
remove_expired q is_expired s = elim (queue_of q s) [
  | [] ↦ (s, [])
  | m ∷ rest ↦ (insert q (sift is_expired (m ∷ rest)).0 s, (sift is_expired (m ∷ rest)).1)
]

unfoldable pub total_bytes : List Message → ℕ
total_bytes [] = 0
total_bytes (m ∷ queue) = length m.payload + total_bytes queue

unfoldable pub bytes : Text → MessageStore → ℕ
unfolding total_bytes queue_of
bytes q s = total_bytes (queue_of q s)

unfoldable pub enqueue_priority : Text → Message → MessageStore → MessageStore
unfolding queue_of insert insert_by_priority
enqueue_priority q msg s = insert q (insert_by_priority (queue_of q s) msg) s

-- `limit` and `offset` are not negative.
unfoldable pub message_list : Text → ℕ → ℕ → MessageStore → List Message
unfolding queue_of
message_list q limit offset s =
    let list = queue_of q s in
    if leb (length list) offset
    then []
    else take (min (offset + limit) (length list) - offset) (drop offset list)

unfoldable pub all_queues : MessageStore → List Text
all_queues [] = []
all_queues ((q, list) ∷ s) = q ∷ all_queues s
