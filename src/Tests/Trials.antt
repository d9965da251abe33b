-- ===== src/Tests/Trials.antt =====
-- The provider and the author's test at concrete inputs.
use kubedrill.Shared.{
  if◌then◌else◌, ◌==◌, ℕ, ◌+◌, ◌-◌, ap, arith, String, true, false, Option, none, some, List, [],
  ◌∷◌, ◌≡◌, refl, ◌⧺◌,
}
use kubedrill.Shared.Results.{ok}
use kubedrill.Rules.Audit.{AuditEvent}
use kubedrill.Engine.Reading.{read_from, decode_audit_lines}
use kubedrill.Kind.Runtime.{Runtime, output, Handle}
use kubedrill.Kind.Environment.{drop_text, control_plane}
use kubedrill.Kind.Audit.{log_of, Tails, Split, read_from-all}
use kubedrill.Author.Testing.{Bench}
use kubedrill.Tests.Setting.{deletion, plain_texts}

abbrev written : String
written = "{deletion}\n{dele"

-- A node whose audit log ends in the middle of a line.
abbrev runtime : Runtime ℕ
runtime = record {
  create = λ name path img cfg w. (none, w);
  delete = λ name w. (none, w);
  list = λ w. (ok ("kubedrill-s1" ∷ "kind" ∷ []), w);
  list_nodes = λ name w. (ok ((name ⧺ "-control-plane") ∷ []), w);
  control_plane_nodes = λ ns w. (ok ("cp" ∷ []), w);
  tail = λ node n path w. (output (drop_text (n - 1) written), w);
  run_combined = λ node cmd w. (none, w);
  make_dir = λ d w. (none, w);
  write_file = λ p t w. (none, w);
  has_file = λ p w. (true, w);
  run = λ n cmd w. (output "kubeconfig", w);
  read_file = λ p w. (ok "kubeconfig", w);
  load_config = λ t. ok (record { auth_infos = ("u", t) ∷ []; contexts = []; others = "" });
  write_config = λ c. ok c.others;
  open_archive = λ t w. (none, w);
  rewind_archive = λ t w. (none, w);
  import_archive = λ t n w. (none, w);
  join = λ a b. a ⧺ "/" ⧺ b;
  has_suffix = λ s t. false;
}

abbrev handle : Handle
handle = record {
  player_path = "s1/kubeconfig";
  engine_path = "s1/engine-kubeconfig";
  cluster = "kubedrill-s1";
  audit = true;
}

abbrev one_line : String → List String
one_line s = s ∷ []

abbrev an_event : String → Option AuditEvent
an_event s = some deletion

tailing : Tails runtime one_line an_event handle written
unfolding control_plane
tailing = record {
  node = "cp";
  wired = refl;
  found = λ w. refl;
  tail = λ from w.
      let same : from + 1 - 1 ≡ from = omega arith in ap (λ n. output (drop_text n written)) same;
}

read_from-all_example :
    (whole : String) × (rest : String) × Split written whole rest
    × ((read_from (log_of runtime one_line an_event handle) 2 "s1" 0 [] 7).0
        ≡ some (
            ok (
              if whole == ""
              then []
              else decode_audit_lines (log_of runtime one_line an_event handle) whole)))
read_from-all_example = read_from-all runtime one_line an_event handle written tailing 0 "s1" 7

-- The solution succeeds.
abbrev bench : Bench ℕ
bench = record {
  make_workspace = λ w. (none, w);
  remove_workspace = λ w. (none, w);
  run_solution = λ dir script kc w. (none, w);
  show = plain_texts.show_int;
  trim_space = λ s. s;
}
