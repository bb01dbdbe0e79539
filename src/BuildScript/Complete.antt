-- ===== src/BuildScript/Complete.antt =====
-- crates/ps5-sys/build.rs, `main` from its first line to its last.
use ps_payload_rust.Base.{
  ◌≡◌, refl, inl, inr, Bool, true, false, ◌∙◌, sym, subst, append-nil, Option-cases, List, [], ◌∷◌,
  Option, none, some, Bytes, codes,
}
use ps_payload_rust.BuildScript.{
  Host, Event, Panic, Ran, returns, panics, and_then, ◌>>=◌, ◌>>◌, when, manifest_dir_not_set,
  no_sdk, out_dir_not_set, bindgen_failed, write_failed,
}
use ps_payload_rust.BuildScript.Sdk
use ps_payload_rust.BuildScript.Sdk.{Sdk, installed, source}
use ps_payload_rust.BuildScript.Run
use ps_payload_rust.BuildScript.Run.{
  generate, configure_ps5, configure_fs, configure_net, configure_thread, expect_out_dir,
  link_libraries, generate_all, main,
}
use ps_payload_rust.BuildScript.Steps.{Holds, Holds-and_then, Holds-then, builds, linked}
use ps_payload_rust.BuildScript.Located.{NotInstalled, Located, locate_sdk-Located}
use ps_payload_rust.BuildScript.Domains.{Domain, ps5, fs, net, thread, target, chosen}
use ps_payload_rust.BuildScript.Built.{
  domains, HasHeader, IsCause, Reached, Stopped, is_on, http_is_on, AreBuilds, Complete, Built,
  generate-Writes, reach, reach_when,
}

module _ (h : Host) where
  -- Nothing is written or linked.
  abbrev Quiet : List (Event h.Bindings) → Type 0
  Quiet log = (builds log ≡ []) × (linked log ≡ [])

  Quiet-NotInstalled :
      (log after : List (Event h.Bindings)) → NotInstalled h log after → Quiet log → Quiet after
  Quiet-NotInstalled log after (inl (e, same)) q = rw same q
  Quiet-NotInstalled log after (inr (root, e, missing, warned)) (w, l) = rw warned (w, rw l refl)

  stopped : (p : Panic) (log : List (Event h.Bindings)) → IsCause h p → Quiet log → Stopped h p log
  stopped p log c (w, l) = (c, ([], domains h, ([], refl, rw w tt, l)))

  locate_sdk-Quiet :
      (before : List (Event h.Bindings)) (o : Ran h.Bindings Sdk)
      → Quiet before
      → Located h before o
      → Holds (λ sdk log. HasHeader h sdk × Quiet log) (Stopped h) o
  locate_sdk-Quiet before (returns (installed root) log) q (i, same) = (i, rw same q)
  locate_sdk-Quiet before (returns (source root) log) q (t, n) =
      (t, Quiet-NotInstalled before log n q)
  locate_sdk-Quiet before (panics manifest_dir_not_set log) q (e, n) =
      stopped manifest_dir_not_set log e (Quiet-NotInstalled before log n q)
  locate_sdk-Quiet before (panics (no_sdk root) log) q (t, n) =
      stopped (no_sdk root) log t (Quiet-NotInstalled before log n q)
  locate_sdk-Quiet before (panics out_dir_not_set log) q l = absurd l
  locate_sdk-Quiet before (panics (bindgen_failed hdr e) log) q l = absurd l
  locate_sdk-Quiet before (panics (write_failed out e) log) q l = absurd l

  clang_args-Quiet :
      (sdk : Sdk) (log : List (Event h.Bindings))
      → Quiet log
      → Holds (λ _. Quiet) (Stopped h) (Sdk.clang_args h sdk log)
  unfolding Sdk.clang_args
  clang_args-Quiet sdk log (w, l) = elim (Option-cases (Sdk.clang_resource_dir h)) [
    | inl e ↦ rw e (w, rw l refl)
    | inr (res, e) ↦ rw e (w, l)
  ]

  expect_out_dir-Reached :
      (dir : Option Bytes) (log : List (Event h.Bindings))
      → h.var (codes "OUT_DIR") ≡ dir
      → Quiet log
      → Holds
          (λ out after. (h.var (codes "OUT_DIR") ≡ some out) × Reached h out (domains h) after)
          (Stopped h)
          (expect_out_dir dir log)
  expect_out_dir-Reached none log e q = stopped out_dir_not_set log e q
  expect_out_dir-Reached (some out) log e (w, l) = (e, ([], refl, rw w tt, l))

  module _ (base : List Bytes) (out : Bytes) where
    ps5-Reached :
        (rest : List Domain) (log : List (Event h.Bindings))
        → Reached h out (ps5 ∷ rest) log
        → Holds (λ _. Reached h out rest) (Stopped h) (Run.ps5_bindings h base out log)
    unfolding Run.ps5_bindings
    ps5-Reached rest log =
        reach h out ps5 rest log
          (generate h base "headers/ps5.h" (target out ps5) configure_ps5 log)
          (generate-Writes h out ps5 base configure_ps5 refl refl log)

    fs-Reached :
        (rest : List Domain) (log : List (Event h.Bindings))
        → Reached h out (chosen (is_on h fs) fs rest) log
        → Holds (λ _. Reached h out rest) (Stopped h) (Run.fs_bindings h base out log)
    unfolding Run.fs_bindings
    fs-Reached rest =
        reach_when h out fs rest (generate h base "headers/fs.h" (target out fs) configure_fs)
          (generate-Writes h out fs base configure_fs refl refl) (is_on h fs)

    net-Reached :
        (rest : List Domain) (log : List (Event h.Bindings))
        → Reached h out (chosen (is_on h net) net rest) log
        → Holds (λ _. Reached h out rest) (Stopped h) (Run.net_bindings h base out log)
    unfolding Run.net_bindings
    net-Reached rest =
        reach_when h out net rest (generate h base "headers/net.h" (target out net) configure_net)
          (generate-Writes h out net base configure_net refl refl) (is_on h net)

    thread-Reached :
        (rest : List Domain) (log : List (Event h.Bindings))
        → Reached h out (chosen (is_on h thread) thread rest) log
        → Holds (λ _. Reached h out rest) (Stopped h) (Run.thread_bindings h base out log)
    unfolding Run.thread_bindings
    thread-Reached rest =
        reach_when h out thread rest
          (generate h base "headers/thread.h" (target out thread) configure_thread)
          (generate-Writes h out thread base configure_thread refl refl) (is_on h thread)

    -- What is left when the core is written, then the files, then the network.
    abbrev from_thread : List Domain
    from_thread = chosen (is_on h thread) thread []

    abbrev from_net : List Domain
    from_net = chosen (is_on h net) net from_thread

    abbrev from_fs : List Domain
    from_fs = chosen (is_on h fs) fs from_net

    generate_all-Reached :
        (log : List (Event h.Bindings))
        → Reached h out (domains h) log
        → Holds (λ _. Reached h out []) (Stopped h) (generate_all h base out log)
    unfolding generate_all
    generate_all-Reached log r =
        Holds-then (Reached h out from_fs) (λ _. Reached h out []) (Stopped h)
          (Run.ps5_bindings h base out)
          (Run.fs_bindings h base out
            >> (Run.net_bindings h base out >> Run.thread_bindings h base out))
          log (ps5-Reached from_fs log r)
          (λ log1 r1.
            Holds-then (Reached h out from_net) (λ _. Reached h out []) (Stopped h)
              (Run.fs_bindings h base out)
              (Run.net_bindings h base out >> Run.thread_bindings h base out) log1
              (fs-Reached from_net log1 r1)
              (λ log2 r2.
                Holds-then (Reached h out from_thread) (λ _. Reached h out []) (Stopped h)
                  (Run.net_bindings h base out) (Run.thread_bindings h base out) log2
                  (net-Reached from_thread log2 r2) (thread-Reached [])))

  link-Built :
      (sdk : Sdk) (out : Bytes) (http : Bool) (log : List (Event h.Bindings))
      → HasHeader h sdk
      → h.var (codes "OUT_DIR") ≡ some out
      → http_is_on h ≡ http
      → Reached h out [] log
      → Built h (when http link_libraries log)
  link-Built sdk out true log has e on (done, all, files, l) = (
    sdk,
    has,
    (
      out,
      e,
      subst (λ ds. AreBuilds h out ds (builds log)) (sym (append-nil done) ∙ all) files,
      rw (l, on) refl,
    ),
  )
  link-Built sdk out false log has e off (done, all, files, l) = (
    sdk,
    has,
    (
      out,
      e,
      subst (λ ds. AreBuilds h out ds (builds log)) (sym (append-nil done) ∙ all) files,
      rw (l, off) refl,
    ),
  )

  build_into-Built :
      (sdk : Sdk) (base : List Bytes) (out : Bytes) (log : List (Event h.Bindings))
      → HasHeader h sdk
      → h.var (codes "OUT_DIR") ≡ some out
      → Reached h out (domains h) log
      → Built h (Run.build_into h base out log)
  unfolding Run.build_into
  build_into-Built sdk base out log has e r =
      Holds-then (Reached h out []) (λ _. Complete h) (Stopped h) (generate_all h base out)
        (when (Sdk.feature h (codes "http")) link_libraries) log
        (generate_all-Reached base out log r)
        (λ after all. link-Built sdk out (http_is_on h) after has e refl all)

  build_for-Built :
      (sdk : Sdk) (log : List (Event h.Bindings))
      → HasHeader h sdk
      → Quiet log
      → Built h (Run.build_for h sdk log)
  unfolding Run.build_for
  build_for-Built sdk log has q =
      Holds-and_then (λ _. Quiet) (λ _. Complete h) (Stopped h) (Sdk.clang_args h sdk log)
        (λ base. expect_out_dir (h.var (codes "OUT_DIR")) >>= Run.build_into h base)
        (clang_args-Quiet sdk log q)
        (λ base log1 q1.
          Holds-and_then
            (λ out after. (h.var (codes "OUT_DIR") ≡ some out) × Reached h out (domains h) after)
            (λ _. Complete h) (Stopped h) (expect_out_dir (h.var (codes "OUT_DIR")) log1)
            (Run.build_into h base) (expect_out_dir-Reached (h.var (codes "OUT_DIR")) log1 refl q1)
            (λ out log2 r. build_into-Built sdk base out log2 has r.0 r.1))

  located-Built :
      (log : List (Event h.Bindings))
      → Quiet log
      → Built h (and_then (Sdk.locate_sdk h log) (Run.build_for h))
  located-Built log q =
      Holds-and_then (λ sdk after. HasHeader h sdk × Quiet after) (λ _. Complete h) (Stopped h)
        (Sdk.locate_sdk h log) (Run.build_for h)
        (locate_sdk-Quiet log (Sdk.locate_sdk h log) q (locate_sdk-Located h log))
        (λ sdk after r. build_for-Built sdk after r.0 r.1)

  -- `main` ends. If it returns, an SDK with its header was found and the output directory is set, and the
  -- files written are those of the core and of the domains whose CARGO_FEATURE_ variable is set, each once
  -- and in order: each holds the bindings that bindgen gave for the header and the allowlists of its
  -- domain; and the three Sony libraries are linked when CARGO_FEATURE_HTTP is set, else none. If it
  -- panics, the host gave the reason that the panic tells, the files written until then are the first of
  -- these, and nothing is linked.
  pub main-Built : Built h (main h [])
  unfolding main
  main-Built = located-Built _ (refl, refl)
