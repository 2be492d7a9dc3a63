-- ===== src/Tests/Guests.antt =====
-- A machine whose state is the time, with a node that answers after a second, and the theorems on
-- klab exec there.
use klab.Prelude.{
  ℕ, suc, ◌+◌, ◌≡◌, ◌↔◌, refl, true, false, Bool, List, [], ◌∷◌, ◌++◌, none, some, ok, arith,
  if◌then◌else◌, leb,
}
use klab.Prelude.Int.{pos}
use klab.Text.{Text, str, text_eq, text_eq_refl, is_empty}
use klab.Text.Decimal.{itoa}
use klab.Topology.Load.{load_iff, Holds}
use klab.Topology.Validate.{IsValid}
use klab.Topology.Accepts.{validate_iff}
use klab.Exec.{Process, exited}
use klab.Host.Probe.{Env}
use klab.Text.Order.{sort, text_leb}
use klab.Topology.{Topology, Node, expand, validate, contains, lookup_node}
use klab.Kernel.Store.{found}
use klab.Qemu.Live.{millisecond, write_request}
use klab.Qemu.Live.Executes.{response_file}
use klab.Qemu.Live.Waiting.{IsClock, here, later}
use klab.Cli.{contents, System, Ended, vm_of, builtin_specs, lookup_spec, bpf_spec}
use klab.Cli.Arguments.{exec_args, Asks, exec_args_iff, parse_flags, asked_help, rest_of}
use klab.Cli.Nodes.{up_cmd, has_instance, vm_home, loaded, exec_cmd}
use klab.Cli.Ends.{main-Ends}
use klab.Cli.Doctored.{meets, main-doctor}
use klab.Cli.Validated.{main-validate}
use klab.Host.{fprint, evaluate}
use klab.Host.Probe.{probe}
use klab.Cli.Up.{CameUp, up_cmd_iff}
use klab.Cli.Main.{main}
use klab.Cli.Executed.{Answers, node_dir, exec_cmd-Answers}

abbrev request : List Text
request = str "lab.yaml" ∷ str "head-0" ∷ str "-v" ∷ str "--" ∷ str "uname" ∷ str "--" ∷ []

request-Asks : Asks request (str "lab.yaml") (str "head-0") (str "uname" ∷ str "--" ∷ [])
unfolding str
request-Asks = (str "-v" ∷ [], refl, ((λ e. cc), ((λ e. cc), ((λ e. cc), tt))), λ e. cc)

exec_args_iff_example :
    (exec_args request ≡ some (str "lab.yaml", str "head-0", str "uname" ∷ str "--" ∷ []))
    ↔ Asks request (str "lab.yaml") (str "head-0") (str "uname" ∷ str "--" ∷ [])
exec_args_iff_example =
    exec_args_iff request (str "lab.yaml") (str "head-0") (str "uname" ∷ str "--" ∷ [])

asked_for_help : parse_flags (str "-h" ∷ str "x" ∷ []) ≡ asked_help
unfolding parse_flags klab.Cli.Arguments.flag_name klab.Text.Split.first_part klab.Text.Split.cut
    str text_eq
asked_for_help = refl

abbrev nowhere : Env
nowhere = record {
  goos = str "linux";
  output = λ argv. none;
  exits_zero = λ argv. false;
  stat = λ path. false;
  look_path = λ tool. false;
  getenv = λ name. [];
  home_dir = none;
}

-- A node that answers after a second.
abbrev lab : Topology
lab = record {
  name = str "lab";
  nodes =
      (
        str "head",
        record {
          driver = str "qemu";
          kernel = str "k";
          arch = str "arm64";
          cpu = pos 1;
          mem = str "1G";
          profile = [];
          count = pos 1;
        },
      )
      ∷ [];
  links = [];
}

asks_home : List Text → Bool
asks_home [] = false
asks_home (a ∷ argv) =
    let rest = asks_home argv in if text_eq a (str "echo $HOME") then true else rest

abbrev guest : System ℕ
guest = record {
  read_file = λ path w. found (str "lab");
  mkdir_all = λ path w. (w, true);
  write_file = λ path f w. (w, true);
  exists = λ path w. false;
  marshal = λ a. none;
  unmarshal = λ s. none;
  unmarshal_yaml = λ s. some lab;
  sum = λ s. [];
  quote = λ s. s;
  start = λ argv w. (
    suc w,
    exited (if leb 1_000_000_000 w then pos 0 else pos 1)
        (if asks_home argv
          then str "/home/k\n"
          else (str "rc=" ++ itoa (pos 3)) ++ 10 ∷ str "Linux")
        [],
  );
  now = λ w. w;
  sleep = λ d w. w + d;
  home = str "/h";
  executable = none;
  probed = λ w. (w, nowhere);
}

guest-IsClock : IsClock (vm_of guest)
unfolding vm_of klab.Exec.lima_run
guest-IsClock = record { run-later = λ argv w. omega arith; sleep-later = λ d w. omega arith }

lab_validates : validate lab ≡ ok tt
unfolding validate is_empty str contains lookup_node text_eq
lab_validates = refl

lab-IsValid : IsValid lab
lab-IsValid = (validate_iff lab).0 lab_validates

lab_loads : loaded guest (str "lab.yaml") 0 ≡ ok lab
unfolding loaded
lab_loads =
    (load_iff _ guest.unmarshal_yaml (str "lab.yaml") lab).1
      (str "lab", unfold klab.Cli.contents in refl, refl, lab-IsValid)

head_known : has_instance (str "head-0") (expand lab) ≡ true
unfolding has_instance expand sort text_leb str lookup_node text_eq klab.Topology.numbered_name
    klab.Text.Decimal.itoa_ℕ
head_known = refl

home_found : vm_home guest 0 ≡ (1, ok (str "/home/k"))
unfolding vm_home klab.Cli.Nodes.home_found vm_of klab.Exec.lima_run klab.Exec.ran_of
    klab.Cli.home_of klab.Text.Space.trim_space asks_home text_eq str is_empty klab.Exec.wrap
    klab.Exec.instance_name
home_found = refl

abbrev uname : List Text
uname = str "uname" ∷ str "--" ∷ []

guest_says :
    ((vm_of guest).run
      (str "sudo"
        ∷ str "cat"
        ∷ response_file (vm_of guest) none (node_dir guest (str "/home/k") (str "head-0")) uname 1
        ∷ [])
      1_000_000_008).1.result.stdout
    ≡ (str "rc=" ++ itoa (pos 3)) ++ 10 ∷ str "Linux"
unfolding vm_of klab.Exec.lima_run klab.Exec.ran_of klab.Exec.wrap klab.Exec.instance_name
    klab.Qemu.Live.ctl_file asks_home text_eq str is_empty klab.Text.Path.path_join
    klab.Text.Path.clean klab.Text.Path.not_empty klab.Text.Path.is_rooted
    klab.Text.Path.keep_components klab.Text.Path.keep_component klab.Text.Path.step_up
    klab.Text.Split.split klab.Text.Split.push klab.Text.join klab.Text.Decimal.itoa_ℕ
guest_says = refl

lab-Answers :
    Answers guest
      (node_dir guest (str "/home/k") (str "head-0"))
      uname
      1
      1_000_000_008
      (pos 3)
      (str "Linux")
unfolding vm_of klab.Exec.lima_run klab.Exec.ran_of write_request klab.Qemu.Live.test_exists
    klab.Qemu.Live.exec_timeout klab.Qemu.Live.deadline_or klab.Exec.succeeded asks_home text_eq str
lab-Answers = record {
  written = refl;
  seen_in_time = later (ground arith) refl (
      later (ground arith) refl (
        later (ground arith) refl
          (later (ground arith) refl (later (ground arith) refl (here (ground arith) refl refl)))));
  read_back = refl;
  says = guest_says;
}

exec_cmd-Answers_example :
    (u : ℕ) × (exec_cmd guest request 0
      ≡ some (u, record { stdout = str "Linux"; notes = []; code = pos 3 }))
exec_cmd-Answers_example =
    exec_cmd-Answers guest guest-IsClock request (str "lab.yaml") (str "head-0") uname 0 1
      1_000_000_008 lab (str "/home/k") (pos 3) (str "Linux") request-Asks lab_loads head_known
      home_found (omega arith) lab-Answers

main-Ends_example : (r : ℕ × Ended) × (main guest (str "up" ∷ str "lab.yaml" ∷ []) 0 ≡ some r)
main-Ends_example = main-Ends guest guest-IsClock (str "up" ∷ str "lab.yaml" ∷ []) 0

up_cmd_iff_example :
    (r : ℕ × Ended) × (up_cmd guest (str "lab.yaml" ∷ []) 0 ≡ some r)
    × ((r.1.code ≡ pos 0) ↔ CameUp guest (str "lab.yaml") 0)
up_cmd_iff_example = up_cmd_iff guest guest-IsClock (str "lab.yaml") 0

main-doctor_example :
    main guest (str "doctor" ∷ []) 0
    ≡ some (
      0,
      record {
        stdout = fprint (evaluate guest.quote (probe nowhere));
        notes = [];
        code = pos (if meets nowhere then 0 else 1);
      },
    )
main-doctor_example = main-doctor guest [] 0

plain_path : parse_flags (str "lab.yaml" ∷ []) ≡ rest_of (str "lab.yaml" ∷ [])
unfolding parse_flags str
plain_path = refl

main-validate_example :
    (e : Ended) × (main guest (str "validate" ∷ str "lab.yaml" ∷ []) 0 ≡ some (0, e))
    × ((e.code ≡ pos 0) ↔ (
        (t : Topology) × Holds
          (λ p. contents (guest.read_file p 0))
          guest.unmarshal_yaml
          (str "lab.yaml")
          t))
main-validate_example = main-validate guest (str "lab.yaml") 0 plain_path
