-- ===== src/Logsink/Routing.antt =====
-- What the collector does to the log directory as a whole.
use gsm_system.Base.{ℕ, suc, ◌≡◌, false, List, [], ◌∷◌, ◌++◌, ltb, length, Bool-cases, inl, inr}
use gsm_system.Base.Text.{Text, eqb, is_empty}
use gsm_system.Logsink.Store.{Faults}
use gsm_system.Logsink.Bounds.{IsBounded, append_log-IsBounded}
use gsm_system.Logsink.Sink.{
  Dir, target_name, append_message, trim_right, receive_one, receive, max_message_bytes,
}

module _ (limit : ℕ) (smqueue_log_name : Text) where
  append_message-IsBounded :
      (f : Faults) (line : Text) (d : Dir)
      → ((name : Text) → IsBounded limit (d name))
      → (name : Text) → IsBounded limit (append_message smqueue_log_name limit f line d name)
  unfolding append_message
  append_message-IsBounded f line d h name =
      let t = target_name smqueue_log_name line in
      elim (Bool-cases (eqb name t)) [
        | inl same ↦ rw same (append_log-IsBounded limit f (line ++ b'\n' ∷ []) (d t) (h t))
        | inr apart ↦ rw apart (h name)
      ]

  receive_one-IsBounded :
      (f : Faults) (datagram : Text) (d : Dir)
      → ((name : Text) → IsBounded limit (d name))
      → (name : Text) → IsBounded limit (receive_one smqueue_log_name limit f datagram d name)
  unfolding receive_one
  receive_one-IsBounded f datagram d h name =
      elim (Bool-cases (ltb max_message_bytes (length datagram))) [
        | inl big ↦ rw big (h name)
        | inr fits ↦ rw fits (elim (Bool-cases (is_empty (trim_right datagram))) [
          | inl blank ↦ rw blank (h name)
          | inr line ↦ rw line (append_message-IsBounded f (trim_right datagram) d h name)
        ])
      ]

  -- For any sequence of datagrams and any failing system calls: where every log of the directory
  -- and its backup were within the limit, they all still are.
  pub receive-IsBounded :
      (f : ℕ → Faults) (datagrams : List Text) (d : Dir)
      → ((name : Text) → IsBounded limit (d name))
      → (name : Text) → IsBounded limit (receive smqueue_log_name limit f datagrams d name)
  unfolding receive
  receive-IsBounded f [] d h = h
  receive-IsBounded f (datagram ∷ rest) d h =
      receive-IsBounded (λ i. f (suc i)) rest (receive_one smqueue_log_name limit (f 0) datagram d)
        (receive_one-IsBounded (f 0) datagram d h)

-- A datagram changes no file but the one that its line is addressed to.
receive_one_elsewhere :
    (smqueue_log_name : Text) (limit : ℕ) (f : Faults) (datagram : Text) (d : Dir) (name : Text)
    → eqb name (target_name smqueue_log_name (trim_right datagram)) ≡ false
    → receive_one smqueue_log_name limit f datagram d name ≡ d name
unfolding receive_one append_message
receive_one_elsewhere n limit f datagram d name h =
    elim (Bool-cases (ltb max_message_bytes (length datagram))) [
      | inl big ↦ rw big
      | inr fits ↦ rw fits (elim (Bool-cases (is_empty (trim_right datagram))) [
        | inl blank ↦ rw blank
        | inr line ↦ rw line (rw h)
      ])
    ]
