-- ===== src/Tui/Requests/Refused.antt =====
-- A request without permission, from the client to the daemon and back.
use inter_fire.Prelude.{
  ◌≤◌, ◌≡◌, ◌∙◌, refl, ap, false, Option, none, some, [], ◌∷◌, Text, lit, ltb, if◌then◌else◌,
  starts_with, strip_prefix, trim_end, arith,
}
use inter_fire.Rules.Store.{Toml}
use inter_fire.Audit.{byte_length}
use inter_fire.Proto.{Parsed, parse}
use inter_fire.Proto.Response.{encode}
use inter_fire.Ipc.{error, peer_may_mutate}
use inter_fire.Ipc.Serve
use inter_fire.Ipc.Serve.{Command}
use inter_fire.Ipc.Authorization.{serve_unauthorized}
use inter_fire.Ipc.Handle.{Context, Shared, change, dispatch, answer, handle, written}
use inter_fire.Tui.{IpcCommand}
use inter_fire.Tui.App.{action_error}
use inter_fire.Tui.Commands.{IsSafe}
use inter_fire.Tui.Requests.{Reply, request_frame, handle_command, events_of, parse_error_message}
use inter_fire.Tui.Requests.Frames.{request_of, IsSendable, parse-request_frame}

-- The commands that ask for a change
abbrev pub IsChange : IpcCommand → Type 0
IsChange IpcCommand.refresh_rules = ⊥
IsChange IpcCommand.refresh_prompts = ⊥
IsChange _ = Unit

-- What the client reads: a connection that is closed without a frame gives it an empty line
unfoldable pub reply_of : Option Text → Reply Text
reply_of none = Reply.ok []
reply_of (some frame) = Reply.ok frame

-- What the client makes of the refusal
shown :
    (command : IpcCommand) (list : Reply Text)
    → IsChange command
    → handle_command (Reply.ok (encode (error (lit "unauthorized")))) list command
      ≡ action_error (lit "unauthorized") ∷ []
unfolding handle_command events_of parse_error_message encode starts_with strip_prefix trim_end
shown IpcCommand.refresh_rules list k = absurd k
shown IpcCommand.refresh_prompts list k = absurd k
shown (IpcCommand.delete_rule id) list k = refl
shown (IpcCommand.add_rule id executable verdict port) list k = refl
shown (IpcCommand.answer_prompt id verdict scope) list k = refl
shown (IpcCommand.traffic_block scope direction) list k = refl
shown (IpcCommand.traffic_unblock scope) list k = refl

module _ (toml : Toml) where
  changed :
      (c : Context) (command : Command) (s : Shared toml)
      → peer_may_mutate c.request.host c.request.peer ≡ false
      → (change toml c s command).0 ≡ some (error (lit "unauthorized"))
  changed c command s h = ap (λ r. r.0) (serve_unauthorized toml c.request command s.server h)

  refused :
      (c : Context) (command : IpcCommand) (s : Shared toml)
      → IsChange command
      → peer_may_mutate c.request.host c.request.peer ≡ false
      → (answer toml c (Parsed.ok (request_of command)) s).0 ≡ some (error (lit "unauthorized"))
  unfolding answer dispatch
  refused c IpcCommand.refresh_rules s k h = absurd k
  refused c IpcCommand.refresh_prompts s k h = absurd k
  refused c (IpcCommand.delete_rule id) s k h = changed c (Serve.delete id) s h
  refused c (IpcCommand.add_rule id executable verdict port) s k h =
      changed c (Serve.add id executable verdict port) s h
  refused c (IpcCommand.answer_prompt id verdict scope) s k h =
      changed c (Serve.answer id verdict scope) s h
  refused c (IpcCommand.traffic_block scope direction) s k h =
      changed c (Serve.block scope direction) s h
  refused c (IpcCommand.traffic_unblock scope) s k h = changed c (Serve.unblock scope) s h

  handle-refused :
      (c : Context) (command : IpcCommand) (s : Shared toml)
      → IsSafe command
      → IsSendable command
      → IsChange command
      → byte_length (request_frame command) ≤ 8192
      → peer_may_mutate c.request.host c.request.peer ≡ false
      → (handle toml c (request_frame command) s).0 ≡ some (encode (error (lit "unauthorized")))
  unfolding handle
  handle-refused c command s safe sendable k size h =
      let frame = request_frame command in
      let short : ltb 8192 (byte_length frame) ≡ false = ground (arith, size) in
      ap
        (λ b.
          written
            (if b
              then (some (error (lit "frame_too_large")), s)
              else answer toml c (parse frame) s).0)
        short
      ∙ ap (λ p. written (answer toml c p s).0) (parse-request_frame command safe sendable)
      ∙ ap written (refused c command s k h)

  -- A refusal is shown: when the client sends a command of the keys that asks for a change, on a line of at most 8192 bytes, with an id, if it names one, of 64 bits, and, if it adds a rule, a path of one word, and its user has no permission, then the one event that it gets of the daemon's answer is the error `unauthorized`.
  pub handle_command-handle :
      (c : Context) (command : IpcCommand) (s : Shared toml) (list : Reply Text)
      → IsSafe command
      → IsSendable command
      → IsChange command
      → byte_length (request_frame command) ≤ 8192
      → peer_may_mutate c.request.host c.request.peer ≡ false
      → handle_command (reply_of (handle toml c (request_frame command) s).0) list command
        ≡ action_error (lit "unauthorized") ∷ []
  unfolding reply_of
  handle_command-handle c command s list safe sendable k size h =
      ap (λ frame. handle_command (reply_of frame) list command)
        (handle-refused c command s safe sendable k size h)
      ∙ shown command list k
