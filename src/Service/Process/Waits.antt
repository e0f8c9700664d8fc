-- ===== src/Service/Process/Waits.antt =====
-- How long boxctl/src/service/process.rs waits for the processes of the core.
use boxproxy.Prelude.{
  String, ℕ, zero, suc, ◌+◌, ◌*◌, ◌≤◌, Bool, true, false, Option, some, List, ◌≡◌, refl, leb,
  is_empty, arith,
}
use boxproxy.Act.{Result, ok, err, ◌>>=◌}
use boxproxy.Act.Ends.{bind-Ends, if-Ends}
use boxproxy.Act.Keeps.{Keeps, keeps_rules}
use boxproxy.Act.Total.{Total, total_rules}
use boxproxy.Rules.Manager.{Env}
use boxproxy.Service.{CoreFiles, System}
use boxproxy.Service.Process.{
  deleted, remove_pid, pid_from_file_if_core, running_core_pids, await_stop, stop_rounds,
  stop_wait_total_ms, stop_poll_min_ms,
}

-- The clock: a pause takes its time, and deleting a file does not turn it back.
pub record Clock (S : Type 0) ⦃E : Env S⦄ ⦃Y : System S⦄ : Type 0 where
  pub pauses : (ms : ℕ) (s : S) → Y.now s + ms ≤ Y.now (Y.pause ms s)
  pub deletes : (t : ℕ) → Keeps (λ s. t ≤ Y.now s) (E.host.remove_file E.config.box_pid)

-- It was found whether the processes went before the deadline.
abbrev pub Answered : {S : Type 0} → Result (Option Bool) × S → Type 0
Answered r = (b : Bool) × (r.0 ≡ ok (some b))

module _ {S : Type 0} ⦃E : Env S⦄ ⦃Y : System S⦄ (clock : Clock S) where
  remove_file-Later : (t : ℕ) → Keeps (λ s. t ≤ Y.now s) (E.host.remove_file E.config.box_pid)
  remove_file-Later t = clock.deletes t

  deleted-Later : (t : ℕ) (r : Result {0} Unit) → Keeps (λ s. t ≤ Y.now s) (deleted r)
  unfolding deleted
  deleted-Later t (ok _) = search keeps_rules
  deleted-Later t (err e) = search keeps_rules

  remove_pid-Later : (t : ℕ) → Keeps (λ s. t ≤ Y.now s) remove_pid
  unfolding remove_pid
  remove_pid-Later t = search (keeps_rules, remove_file-Later, deleted-Later)

  pid_from_file-Later : (t : ℕ) → Keeps (λ s. t ≤ Y.now s) pid_from_file_if_core
  unfolding pid_from_file_if_core
  pid_from_file-Later t = search (keeps_rules, remove_pid-Later) depth 9

  running_core_pids-Later :
      (names : List String) (t : ℕ) → Keeps (λ s. t ≤ Y.now s) (running_core_pids names)
  unfolding running_core_pids
  running_core_pids-Later names t = search (keeps_rules, pid_from_file-Later)

  pid_from_file-Total : Total {W = S} pid_from_file_if_core
  unfolding pid_from_file_if_core
  pid_from_file-Total = search total_rules

  running_core_pids-Total : (names : List String) → Total {W = S} (running_core_pids names)
  unfolding running_core_pids
  running_core_pids-Total names = search (total_rules, pid_from_file-Total)

  await_stop-Answered :
      (files : CoreFiles) (fuel deadline interval : ℕ) (s : S)
      → 10 ≤ interval
      → deadline ≤ Y.now s + 10 * fuel
      → Answered (await_stop files (suc fuel) deadline interval s)
  unfolding await_stop ◌>>=◌
  await_stop-Answered files zero deadline interval s long near =
      let names = files.bin_list in
      let s1 = (running_core_pids names s).1 in
      let later = (running_core_pids-Later names (Y.now s)).at s (omega arith) in
      bind-Ends Answered (running_core_pids names) _ s
        (λ pids done.
          if-Ends Answered (is_empty pids) _ _ s1 (λ none_left. (true, refl))
            (λ some_left.
              if-Ends Answered (leb deadline (Y.now s1)) _ _ s1 (λ late. (false, refl))
                (λ early. ground (arith, later, near))))
        (λ e failed. grind (arith, (running_core_pids-Total names).at s, failed))
  await_stop-Answered files (suc fuel) deadline interval s long near =
      let names = files.bin_list in
      let s1 = (running_core_pids names s).1 in
      let later = (running_core_pids-Later names (Y.now s)).at s (omega arith) in
      bind-Ends Answered (running_core_pids names) _ s
        (λ pids done.
          if-Ends Answered (is_empty pids) _ _ s1 (λ none_left. (true, refl))
            (λ some_left.
              if-Ends Answered (leb deadline (Y.now s1)) _ _ s1 (λ late. (false, refl))
                (λ early.
                  await_stop-Answered files fuel deadline _ (Y.pause interval s1) (ground arith)
                    (omega (arith, later, near, clock.pauses interval s1, long)))))
        (λ e failed. grind (arith, (running_core_pids-Total names).at s, failed))

  -- If a pause takes at least its time, the loop that waits for the processes always ends: within
  -- its 151 rounds either no process of the core is left, or the 1500 milliseconds are over.
  pub await_stop-Answered_in_time :
      (files : CoreFiles) (s : S)
      → Answered (await_stop files stop_rounds (Y.now s + stop_wait_total_ms) stop_poll_min_ms s)
  await_stop-Answered_in_time files s =
      await_stop-Answered files 150 (Y.now s + stop_wait_total_ms) stop_poll_min_ms s (omega arith)
        (omega arith)
