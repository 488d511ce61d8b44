-- ===== src/Service/Tests.antt =====
-- The theorems on db-as-a-service at concrete managers.
use golang_toys.Base.{◌≡◌, refl, none, some, List, [], ◌∷◌, false, true, arith, map, if◌then◌else◌}
use golang_toys.Base.Bytes.{Bytes, compare_bytes}
use golang_toys.Cassandra.Entry.{same}
use golang_toys.Cassandra.Format.{ok}
use golang_toys.Cassandra.Name.{is_literal, has_meta}
use golang_toys.Cassandra.Table.{no_fault, cut_short, refused}
use golang_toys.Cassandra.Db.Open.{opened}
use golang_toys.Service.Tree.{all_removed, FilePath}
use golang_toys.Service.Directories.{IsPlain}
use golang_toys.Service.Manager.{name_of, Manager}
use golang_toys.Service.Server.{Response, Faults, create_db, put_key, get_key, delete_db, list_dbs}
use golang_toys.Service.History.{Event, request, tick, AllAnswered, started, serve-AllAnswered}
use golang_toys.Service.Spec.{Reading}
use golang_toys.Service.Main.{Ended, init_failed, exited, shut_down, signalled, main}
use golang_toys.Service.Main.Shutdown.{IsDurable, main-IsDurable}

abbrev root : FilePath
root = (b'd' ∷ []) ∷ []

abbrev users : Bytes
users = b'u' ∷ b's' ∷ []

abbrev quiet : Faults
quiet = record { mkdir_refused = false; expanded = ok []; write = no_fault; remove = all_removed }

abbrev failing : Faults
failing = record {
  mkdir_refused = false;
  expanded = ok [];
  write = cut_short 3;
  remove = all_removed;
}

abbrev events : List Event
events =
    request quiet (create_db users)
    ∷ request failing (put_key users (1 ∷ []) (some (2 ∷ [])))
    ∷ tick (λ name. refused)
    ∷ request quiet (get_key users (1 ∷ []))
    ∷ request quiet list_dbs
    ∷ request failing (delete_db users)
    ∷ request quiet (get_key users (1 ∷ []))
    ∷ []

users-IsPlain : IsPlain users
unfolding same compare_bytes has_meta
users-IsPlain = record {
  no_slash = omega arith;
  not_empty = refl;
  not_here = refl;
  not_up = refl;
  no_meta = refl;
}

root_literal : is_literal root ≡ true
unfolding is_literal has_meta
root_literal = refl

serve-AllAnswered_example : AllAnswered events (started root (λ p. none)) (λ name. none)
serve-AllAnswered_example =
    serve-AllAnswered events root (λ p. none) root_literal (λ name. refl)
      (users-IsPlain, ((omega arith, omega arith), (tt, (tt, (tt, (refl, (tt, tt)))))))

-- A database registered under ".", beside another.
abbrev two_dbs : Manager
two_dbs = record {
  root = root;
  dbs =
      record { name = b'.' ∷ []; db = opened 128 [] }
      ∷ record { name = users; db = opened 128 [] }
      ∷ [];
  tree = λ p. some [];
}

abbrev uses : List Event
uses =
    request quiet (create_db users)
    ∷ request quiet (put_key users (1 ∷ []) (some (2 ∷ [])))
    ∷ tick (λ name. refused)
    ∷ request quiet (get_key users (1 ∷ []))
    ∷ []

abbrev left : Ended → Manager
left (init_failed e) = two_dbs
left (exited m rs) = m
left (shut_down m rs e) = m

abbrev answered : Ended → List Response
answered (init_failed e) = []
answered (exited m rs) = rs
answered (shut_down m rs e) = rs

abbrev life : Ended
life = main false root (λ p. none) uses signalled (λ name. no_fault) (map name_of)

abbrev one_value : Reading
one_value k = if same (1 ∷ []) k then some (2 ∷ []) else none

main-IsDurable_example : IsDurable users (left life) one_value
unfolding main
main-IsDurable_example =
    main-IsDurable root (λ p. none) uses (λ name. no_fault) (map name_of) {rs = answered life}
      root_literal (λ name. refl) (users-IsPlain, ((omega arith, omega arith), (tt, (tt, tt))))
      (λ ns n c. c) refl users one_value refl
