-- ===== src/Tests/Roster.antt =====
-- Runs of the roster service: a plan, an interleaving, a pass, two mutations.
use xform.Base.{
  String, true, false, ◌&&◌, List, [], ◌∷◌, Option, none, some, ◌==◌, string_eq, ◌≡◌, refl, arith,
  if◌then◌else◌,
}
use xform.Base.Lists.{contains, keep}
use xform.Base.Assoc.{lookup}
use xform.Base.Text.{trim_space}
use xform.XrayConfig.{View, Inbound, managed}
use xform.Users.{RosterRecord, Db}
use xform.Users.Store.Sql.{find}
use xform.Users.Store.{roster_record_where}
use xform.Users.Store.Flags.{purge_roster_user, mark_roster_deleting}
use xform.Roster.{PendingChange, op_attach, diff_ops, detach, synced}
use xform.Roster.Diff.{push_all, CanHold, landed}
use xform.Roster.Service.{Service, StoreApi, Outside, new_service, enqueue_gen, sync, is_some}
use xform.Roster.Service.Queue.{settles, enqueues, run, step, run-enqueue_gen}
use xform.Roster.Service.Failures.{step-IsRetriable, IsRetriable}
use xform.Roster.{PushOp, op_rotate, failed}
use xform.Roster.Plan.{find_managed, plan_of}
use xform.Roster.Plan.Grouped.{plan_of-queue, clients_for, clients_in, removes_for, removes_in}
use xform.Roster.Service.Waiting.{wait_settled-seen, seen, is_calm, reads_failure}
use xform.XrayConfig.RosterParse.{or_empty}
use xform.Roster.Service.{wait_settled, Look}
use xform.Roster.Apply.{World, apply, push_ops, push_op}
use xform.Roster.Apply.Drain.{Succeeds, sync-apply}
use xform.Roster.Apply.Xray.{XrayLaws, holds-push_ops-diff_ops}
use xform.Roster.Mutations.{State}
use xform.Roster.Mutations.Leaving.{delete_user}
use xform.Roster.Mutations.Removal.{queued_change, delete_user_detaches, delete_user_strands}
use xform.Roster.Panel.{store_api}
use xform.Tests.{letters, sql_lower, two_users}

abbrev alice : String → List String → RosterRecord
alice id inbounds = record {
  email = "alice";
  client_id = id;
  inbounds = inbounds;
  created_at = 1;
  updated_at = 1;
}

abbrev owed : PendingChange
owed = record { id = "1"; ops = detach "in3" ∷ []; gen = 1; purge = false }

-- An edit from one Client ID and inbound to others, with a detach that has not landed yet.
abbrev before : RosterRecord
before = alice "1" ("in1" ∷ [])

abbrev after : RosterRecord
after = alice "2" ("in1" ∷ "in2" ∷ [])

owed-CanHold : CanHold before after owed "in1" (some "1")
unfolding contains keep
owed-CanHold = record {
  untouched = λ a d. refl;
  known = λ a out. refl;
  given_back = λ a d i. absurd (ground arith);
}

run-enqueue_gen_example :
    let after =
      run
        (settles "alice" owed ∷ enqueues (record before { email = "bob" }) [] false ∷ [])
        (enqueue_gen before (detach "in1" ∷ []) false (record new_service { next_gen = 1 })) in
    (lookup "alice" after.queue
      ≡ some (record { id = "1"; ops = detach "in1" ∷ []; gen = 2; purge = false }))
    × (lookup "alice" after.failures ≡ none)
run-enqueue_gen_example =
    run-enqueue_gen before (detach "in1" ∷ []) false
      (settles "alice" owed ∷ enqueues (record before { email = "bob" }) [] false ∷ [])
      (record new_service { next_gen = 1 }) (omega arith) (omega arith, (refl, tt))

abbrev queueing : Service
queueing = record new_service { queue = ("alice", owed) ∷ []; failures = ("alice", true) ∷ [] }

queueing-IsRetriable : IsRetriable queueing
unfolding lookup
queueing-IsRetriable email h = h_kept email h
  where
    h_kept :
        (email : String)
        → is_some (lookup email queueing.failures) ≡ true
        → is_some (lookup email queueing.queue) ≡ true
    h_kept email h = ground (arith, h)

step-IsRetriable_example : IsRetriable (step (settles "alice" owed) queueing)
step-IsRetriable_example = step-IsRetriable (settles "alice" owed) queueing tt queueing-IsRetriable

-- xray as the credentials that its inbounds hold.
abbrev Running : Type 0
Running = String → String → Option String

abbrev xray : Outside Running
xray = record {
  render = λ plan x. (none, x);
  add_user = λ tag user x. (
    none,
    λ t e. if tag == t && user.email == e then landed user.id op_attach (x t e) else x t e,
  );
  remove_user = λ tag name x. (none, λ t e. if tag == t && name == e then none else x t e);
  purge = λ email x. x;
}

xray-XrayLaws : XrayLaws xray (λ x. x)
xray-XrayLaws = record {
  added = λ tag user x tag' email h. refl;
  removed = λ tag name x tag' email h. refl;
}

abbrev panel_store : StoreApi Db
panel_store = store_api letters sql_lower

xray-Succeeds : Succeeds panel_store xray
unfolding purge_roster_user
xray-Succeeds = record {
  renders = λ plan x. refl;
  adds = λ tag user x. refl;
  removes = λ tag email x. refl;
  purges = λ email s. refl;
}

abbrev plain : String → Inbound
plain tag = record {
  tag = tag;
  protocol = "vless";
  port = "443";
  flow = "";
  decryption = "none";
  transport = record {
    kind = "tcp";
    raw_header_configured = false;
    raw_header_type = "";
    final_mask_configured = false;
    web_socket = record { path = ""; host = "" };
    http_upgrade = record { path = ""; host = "" };
    grpc = record { service_name = ""; authority = ""; multi_mode = false };
    xhttp = record { path = ""; host = ""; mode = ""; extra_configured = false };
  };
  security = record {
    kind = "reality";
    tls = record { server_name = ""; reject_unknown_sni = false; alpn = [] };
    reality = record { server_names = []; short_ids = [] };
  };
  users = [];
}

abbrev view : View
view = plain "in1" ∷ plain "in3" ∷ []

abbrev world : World Db Running
world = record { service = queueing; store = two_users; outside = λ t e. none }

sync-apply_example :
    (sync (apply letters panel_store xray view world).service ≡ synced)
    × ((email : String)
        → lookup email (apply letters panel_store xray view world).service.queue ≡ none)
sync-apply_example =
    sync-apply letters panel_store xray view xray-Succeeds world queueing-IsRetriable

-- xray before the edit: "in1" holds the old credential of alice.
abbrev holding : Running
holding = λ t e. if t == "in1" && e == "alice" then some "1" else none

abbrev edited : PendingChange
edited = record { id = "2"; ops = diff_ops before after [] owed; gen = 2; purge = false }

holds-push_ops-diff_ops_example :
    (push_ops letters panel_store xray view "alice" edited
        (diff_ops before after [] owed)
        holding).1
      "in1" "alice"
    ≡ some "2"
unfolding contains keep push_ops push_op diff_ops find_managed managed
holds-push_ops-diff_ops_example =
    holds-push_ops-diff_ops letters panel_store xray view (λ x. x) xray-XrayLaws before after []
      owed edited holding "in1" "alice" refl refl owed-CanHold refl

abbrev owing : State Db
owing = record { service = queueing; store = two_users }

delete_user_detaches_example :
    let change =
      queued_change "alice" (delete_user letters panel_store view 7 " alice" owing).1.service in
    (change.purge ≡ true) × (push_all change.id "in3" change.ops (some "1") ≡ none)
unfolding find roster_record_where mark_roster_deleting contains lookup trim_space
delete_user_detaches_example =
    delete_user_detaches letters panel_store view 7 " alice" (alice "1" ("in1" ∷ [])) "in3"
      (some "1") owing refl refl refl refl

-- The owed detach of "in3" is lost.
delete_user_strands_example :
    let change =
      queued_change "alice" (delete_user letters panel_store view 7 "Alice" owing).1.service in
    (change.purge ≡ true) × (push_all change.id "in3" change.ops (some "1") ≡ some "1")
unfolding find roster_record_where mark_roster_deleting contains lookup trim_space
delete_user_strands_example =
    delete_user_strands letters panel_store view 7 "Alice" (alice "1" ("in1" ∷ [])) "in3" (some "1")
      owing refl refl refl refl refl

abbrev rotated : PushOp
rotated = record { kind = op_rotate; tag = "in1"; flow = "" }

abbrev two_changes : List (String × PendingChange)
two_changes =
    ("alice", owed)
    ∷ ("bob", record { id = "2"; ops = detach "in3" ∷ rotated ∷ []; gen = 2; purge = false })
    ∷ []

plan_of-queue_example :
    let plan = plan_of two_changes (record { adds = []; removes = []; sets = [] }) in
    (or_empty (lookup "in3" plan.adds) ≡ [])
    × (or_empty (lookup "in3" plan.sets) ≡ [])
    × (or_empty (lookup "in3" plan.removes) ≡ "alice" ∷ "bob" ∷ [])
unfolding clients_for clients_in removes_for removes_in
plan_of-queue_example = plan_of-queue "in3" two_changes

-- The first turn finds the change queued, the second finds it settled.
abbrev turn : Look
turn = (queueing, queueing)

abbrev settled_turns : List Look
settled_turns = (new_service, new_service) ∷ []

wait_settled-seen_example :
    (wait_settled "alice" turn settled_turns ≡ synced → seen is_calm turn settled_turns ≡ true)
    × (wait_settled "alice" turn settled_turns ≡ failed
        → seen reads_failure turn settled_turns ≡ true)
wait_settled-seen_example = wait_settled-seen "alice" turn settled_turns
