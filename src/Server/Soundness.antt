-- ===== src/Server/Soundness.antt =====
-- What every frame does with the exchanges, the queues, their bindings and the access rules.
use gomq.Prelude.{
  ℕ, ◌≡◌, refl, List, [], ◌∷◌, Text, Option, none, some, ◌==◌, nat_eq, if◌then◌else◌, All,
  Bool-cases, sym, ◌∙◌, inl, inr,
}
use gomq.Prelude.GoMap.{lookup, lookup-insert}
use gomq.Amqp.Frame.{Frame}
use gomq.Amqp.Decode.{read_uint16}
use gomq.Delivery.Policy.{Platform}
use gomq.Server.Session.{Session, Handler, not_method, read}
use gomq.Server.BasicHandlers.{handle_nack, handle_reject, handle_recover}
use gomq.Server.ModeHandlers.{handle_channel_recover}
use gomq.Server.Dispatcher.{
  Registry, key, register, lookup_handler, registrations, register_all, register_basic_handlers,
  call_handler, dispatch,
}
use gomq.Server.Evolution.{stays, Sound, Sound-if, Sound-err, Good, Good-bind, Sound-run}
use gomq.Server.EvolutionLaws.{IsSound, handlers_sound}

abbrev EntrySound : ℕ × ℕ × Handler → Type 0
EntrySound e = IsSound e.2

registrations-IsSound : (p : Platform) → All EntrySound (registrations p)
unfolding registrations handle_nack handle_reject handle_recover handle_channel_recover
registrations-IsSound p = search handlers_sound depth 40

-- Every handler of the registry is sound.
abbrev AllSound : Registry → Type 0
AllSound r = (k : ℕ) (h : Handler) → lookup k r ≡ some h → IsSound h

register-AllSound :
    (class_id method_id : ℕ) (h : Handler) (r : Registry)
    → IsSound h
    → AllSound r
    → AllSound (register class_id method_id h r)
unfolding register
register-AllSound class_id method_id h r i a k h' e =
    let e' : (if key class_id method_id == k then some h else lookup k r) ≡ some h' =
      sym (lookup-insert (key class_id method_id) k h r) ∙ e in
    elim (Bool-cases (key class_id method_id == k)) [
      | inl t ↦ let q : h ≡ h' = cc (rw t at e') in rw (← q) i
      | inr f ↦ a k h' (rw f at e')
    ]

register_all-AllSound :
    (entries : List (ℕ × ℕ × Handler)) (r : Registry)
    → All EntrySound entries
    → AllSound r
    → AllSound (register_all entries r)
unfolding register_all
register_all-AllSound [] r i a = a
register_all-AllSound ((class_id, method_id, h) ∷ entries) r (i, is) a =
    register_all-AllSound entries _ is (register-AllSound class_id method_id h r i a)

register_basic_handlers-AllSound : (p : Platform) → AllSound (register_basic_handlers p)
unfolding register_basic_handlers lookup
register_basic_handlers-AllSound p =
    register_all-AllSound (registrations p) [] (registrations-IsSound p) (λ k h e. absurd cc)

call_handler-Good :
    (found : Option Handler) (payload : Text) (s : Session)
    → ((h : Handler) → found ≡ some h → IsSound h)
    → Good s (call_handler found payload)
unfolding call_handler
call_handler-Good none payload s i = tt
call_handler-Good (some h) payload s i = i h refl payload s

-- Whatever frame a client sends, a method that answers that access is denied has left the whole
-- session as it was, no method changes the access rules, and the exchanges, queues and bindings make
-- one step of their managers or none; a binding between exchanges is made only where the search finds
-- no cycle.
pub dispatch-Sound :
    (p : Platform) (f : Frame) (s : Session) → Sound s (dispatch (register_basic_handlers p) f s)
unfolding dispatch lookup_handler
dispatch-Sound p f s = Sound-if _ s _ _ (Sound-err s s not_method (λ q. cc) stays refl) (
    Sound-run s _ (
      Good-bind s (read read_uint16 f.payload) _ λ (class_id, d).
        Good-bind s (read read_uint16 d) _ λ (method_id, d).
          call_handler-Good (lookup_handler class_id method_id (register_basic_handlers p))
            f.payload s λ h e. register_basic_handlers-AllSound p _ h e))
