-- ===== src/Ipc/Tests.antt =====
-- An operator, a stranger, and a daemon with one question.
use inter_fire.Prelude.{
  show_nat, ◌≡◌, refl, sym, true, false, none, some, [], ◌∷◌, lit, eq_nat, get, insert, arith,
  IsOrdered-empty, text_eq,
}
use inter_fire.Rules.{allow, deny}
use inter_fire.Rules.Tests.{plain, fine, blank}
use inter_fire.Prompts.Tests.{asked, asked-IsValid, asked_there, question}
use inter_fire.Dns.Tests.{two_names, two_names-IsValid}
use inter_fire.Rules.Store.{Loaded, load, save, replace_file}
use inter_fire.Prompts.{once, permanent, expire}
use inter_fire.Nft.{exited}
use inter_fire.Control.{Calls, new_modes}
use inter_fire.Ipc.{Host, Request, Server, pong, user_in_gid, uid_may_mutate, peer_may_mutate}
use inter_fire.Ipc.Mutations.{save_rules, rule_add}
use inter_fire.Ipc.Serve.{Command, serve}
use inter_fire.Ipc.Invariant.{IsValid}
use inter_fire.Ipc.Restart.{serve_durable}
use inter_fire.Ipc.Handle.{Context, Shared, handle, handle_all}
use inter_fire.Ipc.Handle.Guarded.{IsUntouched, handle_unauthorized}
use inter_fire.Ipc.Handle.Kept.{handle_all-IsValid}
use inter_fire.Tui.{IpcCommand}
use inter_fire.Tui.App.{action_error}
use inter_fire.Tui.Requests.{Reply, request_frame, handle_command}
use inter_fire.Tui.Requests.Refused.{reply_of, handle_command-handle}
use inter_fire.Ipc.Retry.{serve-answer_twice}

-- The operator is in the group 400, through the list of groups only.
abbrev host : Host
host = record {
  current = 0;
  operator_group = some 400;
  account = λ uid. some (record { gid = uid; groups = some (1000 ∷ 400 ∷ []) });
}

abbrev calls : Calls
calls = record { stored = true; runs = record { delete = exited true []; load = exited true [] } }

abbrev operator : Request
operator = record {
  peer = some 1000;
  host = host;
  save_calls = fine;
  calls = calls;
  now = 9;
  later = 9;
}

abbrev stranger : Request
stranger = record operator { host = record host { operator_group = none } }

-- A request whose save fails
abbrev unlucky : Request
unlucky = record operator { save_calls = record fine { rename = false } }

abbrev started : Server plain
started = record {
  rules = [];
  disk = blank;
  prompts = asked;
  dns = two_names;
  modes = new_modes [] [];
  poisoned = record { rules = false; prompts = false; dns = false };
}

started-IsValid : IsValid plain started
unfolding new_modes
started-IsValid = record {
  rules = record { unique = tt; absolute = tt };
  prompts = asked-IsValid;
  dns = two_names-IsValid;
  modes = record { mode = refl; traffic = refl };
}

abbrev web : Command
web = Command.add 7 (lit "/usr/bin/curl") (lit "deny") 443

web_is_done : (serve plain operator web started).0 ≡ some pong
unfolding serve rule_add save_rules save replace_file inter_fire.Rules.insert peer_may_mutate
    uid_may_mutate user_in_gid text_eq inter_fire.Prelude.starts_with
web_is_done = refl

serve_durable_example :
    load plain true (serve plain operator web started).1.disk
    ≡ Loaded.ok (serve plain operator web started).1.rules
serve_durable_example = serve_durable plain operator web started started-IsValid refl web_is_done

operator_may : peer_may_mutate operator.host operator.peer ≡ true
unfolding peer_may_mutate uid_may_mutate user_in_gid
operator_may = refl

serve-answer_twice_example :
    let s' = (serve plain unlucky (Command.answer 1 (lit "allow") (lit "permanent")) started).1 in
    serve plain operator (Command.answer 1 (lit "deny") (lit "once")) s'
    ≡ (some pong, record s' { prompts = expire 9 s'.prompts })
serve-answer_twice_example =
    serve-answer_twice plain unlucky operator 1 (lit "allow") (lit "permanent") (lit "deny")
      (lit "once") allow deny permanent once question started started-IsValid operator_may
      operator_may refl (unfold text_eq in refl) (unfold text_eq in refl) (unfold text_eq in refl)
      (unfold text_eq in refl) asked_there refl refl

-- The daemon with its other tables, and what a request of each peer meets
abbrev running : Shared plain
running = record {
  server = started;
  tables = record {
    cache = record { capacity = 4; entries = []; order = [] };
    recent = record { capacity_keys = 4; per_key = 2; order = []; entries = [] };
    stats = inter_fire.Stats.new 0;
    audit = record {
      max_bytes = 64;
      max_records = 2;
      next_seq = 1;
      records = [];
      subscribers = [];
      file = [];
    };
    observation = inter_fire.Control.attached;
    cache_poisoned = false;
    recent_poisoned = false;
    stats_poisoned = false;
    audit_poisoned = false;
  };
}

abbrev met : Request → Context
met request = record {
  request = request;
  own_pid = 77;
  self_status = none;
  self_stat = none;
  list_run = exited true [];
  list_output = [];
  version = lit "0.1.0";
  git = lit "abc";
}

handle_unauthorized_example :
    IsUntouched plain
      (met stranger)
      running
      (handle plain (met stranger) (lit "v1 rule-add 7 /usr/bin/curl deny 443\n") running).1
handle_unauthorized_example =
    handle_unauthorized plain (met stranger) (lit "v1 rule-add 7 /usr/bin/curl deny 443\n") running
      (unfold peer_may_mutate uid_may_mutate in refl)

handle_all-IsValid_example :
    IsValid plain
      (handle_all plain
        ((met operator, lit "v1 rule-add 7 /usr/bin/curl deny 443\n")
          ∷ (met stranger, lit "v2 nonsense")
          ∷ (met unlucky, lit "v1 prompt-answer 1 allow permanent\n")
          ∷ (met operator, lit "v1 prompt-list\n")
          ∷ [])
        running).server
handle_all-IsValid_example =
    handle_all-IsValid plain
      ((met operator, lit "v1 rule-add 7 /usr/bin/curl deny 443\n")
        ∷ (met stranger, lit "v2 nonsense")
        ∷ (met unlucky, lit "v1 prompt-answer 1 allow permanent\n")
        ∷ (met operator, lit "v1 prompt-list\n")
        ∷ [])
      running started-IsValid

handle_command-handle_example :
    handle_command
      (reply_of (handle plain (met stranger) (request_frame (IpcCommand.delete_rule 7)) running).0)
      (Reply.err (lit "closed"))
      (IpcCommand.delete_rule 7)
    ≡ action_error (lit "unauthorized") ∷ []
handle_command-handle_example =
    handle_command-handle plain (met stranger) (IpcCommand.delete_rule 7) running
      (Reply.err (lit "closed")) tt (omega arith) tt (unfold request_frame show_nat in omega arith)
      (unfold peer_may_mutate uid_may_mutate in refl)
