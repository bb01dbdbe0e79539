-- ===== src/BuildScript/Isolated.antt =====
-- crates/ps5-sys/build.rs, `main`: bindgen sees clang's headers and the SDK's.
use ps_payload_rust.Base.{
  refl, inl, inr, List, [], append-nil, All, Option, none, some, Bytes, codes, Option-cases,
}
use ps_payload_rust.BuildScript.{
  Host, Event, Ran, returns, panics, and_then, ◌>>=◌, ◌>>◌, when, join, manifest_dir_not_set,
  no_sdk, out_dir_not_set, bindgen_failed, write_failed,
}
use ps_payload_rust.BuildScript.Sdk
use ps_payload_rust.BuildScript.Sdk.{Sdk, installed, source, path, clang_target}
use ps_payload_rust.BuildScript.Run
use ps_payload_rust.BuildScript.Run.{
  base_builder, written_to, write_bindings, generate, configure_ps5, configure_fs, configure_net,
  configure_thread, expect_out_dir, link_libraries, generate_all, main,
}
use ps_payload_rust.BuildScript.Steps.{Holds, Holds-and_then}
use ps_payload_rust.BuildScript.Located.{NotInstalled, Located, locate_sdk-Located}
use ps_payload_rust.BuildScript.Built.{HasHeader}
use ps_payload_rust.BuildScript.Seen.{
  events, IsIsolated, Sees, Clean, Keeps, Keeps-then, Keeps-when, generate-Clean,
}

module _ (h : Host) where
  module _ (sdk : Sdk) (base : List Bytes) (out : Bytes) (has : HasHeader h sdk)
      (isolated : IsIsolated h sdk base) where
    ps5-Clean : Keeps h (Run.ps5_bindings h base out)
    unfolding Run.ps5_bindings
    ps5-Clean =
        generate-Clean h sdk base "headers/ps5.h" (join out (codes "ps5_bindings.rs")) configure_ps5
          has isolated (append-nil base)

    fs-Clean : Keeps h (Run.fs_bindings h base out)
    unfolding Run.fs_bindings
    fs-Clean =
        Keeps-when h (Sdk.feature h (codes "fs"))
          (generate h base "headers/fs.h" (join out (codes "fs_bindings.rs")) configure_fs)
          (generate-Clean h sdk base "headers/fs.h" (join out (codes "fs_bindings.rs")) configure_fs
            has isolated (append-nil base))

    net-Clean : Keeps h (Run.net_bindings h base out)
    unfolding Run.net_bindings
    net-Clean =
        Keeps-when h (Sdk.feature h (codes "net"))
          (generate h base "headers/net.h" (join out (codes "net_bindings.rs")) configure_net)
          (generate-Clean h sdk base "headers/net.h" (join out (codes "net_bindings.rs"))
            configure_net has isolated (append-nil base))

    thread-Clean : Keeps h (Run.thread_bindings h base out)
    unfolding Run.thread_bindings
    thread-Clean =
        Keeps-when h (Sdk.feature h (codes "thread"))
          (generate h base "headers/thread.h" (join out (codes "thread_bindings.rs"))
            configure_thread)
          (generate-Clean h sdk base "headers/thread.h" (join out (codes "thread_bindings.rs"))
            configure_thread has isolated (append-nil base))

    generate_all-Clean : Keeps h (generate_all h base out)
    unfolding generate_all
    generate_all-Clean =
        Keeps-then h (Run.ps5_bindings h base out)
          (Run.fs_bindings h base out
            >> (Run.net_bindings h base out >> Run.thread_bindings h base out))
          ps5-Clean
          (Keeps-then h (Run.fs_bindings h base out)
            (Run.net_bindings h base out >> Run.thread_bindings h base out) fs-Clean
            (Keeps-then h (Run.net_bindings h base out) (Run.thread_bindings h base out) net-Clean
              thread-Clean))

    build_into-Clean : Keeps h (Run.build_into h base out)
    unfolding Run.build_into
    build_into-Clean =
        Keeps-then h (generate_all h base out) (when (Sdk.feature h (codes "http")) link_libraries)
          generate_all-Clean
          (Keeps-when h (Sdk.feature h (codes "http")) link_libraries
            (λ log c. (tt, (tt, (tt, c)))))

  clang_args-Isolated :
      (sdk : Sdk) (log : List (Event h.Bindings))
      → Clean h log
      → Holds
          (λ args after. IsIsolated h sdk args × Clean h after)
          (λ _. Clean h)
          (Sdk.clang_args h sdk log)
  unfolding Sdk.clang_args
  clang_args-Isolated (installed root) log c = elim (Option-cases (Sdk.clang_resource_dir h)) [
    | inl e ↦ rw e ((refl, refl), (tt, c))
    | inr (res, e) ↦ rw e ((refl, refl), c)
  ]
  clang_args-Isolated (source root) log c = elim (Option-cases (Sdk.clang_resource_dir h)) [
    | inl e ↦ rw e ((refl, refl), (tt, c))
    | inr (res, e) ↦ rw e ((refl, refl), c)
  ]

  expect_out_dir-Clean : (dir : Option Bytes) → Keeps h (expect_out_dir dir)
  expect_out_dir-Clean none log c = c
  expect_out_dir-Clean (some out) log c = c

  Clean-NotInstalled :
      (log after : List (Event h.Bindings)) → NotInstalled h log after → Clean h log → Clean h after
  Clean-NotInstalled log after (inl (e, same)) c = rw same c
  Clean-NotInstalled log after (inr (root, e, missing, warned)) c = rw warned (tt, c)

  locate_sdk-Clean :
      (before : List (Event h.Bindings)) (o : Ran h.Bindings Sdk)
      → Clean h before
      → Located h before o
      → Holds (λ sdk log. HasHeader h sdk × Clean h log) (λ _. Clean h) o
  locate_sdk-Clean before (returns (installed root) log) c (i, same) = (i, rw same c)
  locate_sdk-Clean before (returns (source root) log) c (t, n) =
      (t, Clean-NotInstalled before log n c)
  locate_sdk-Clean before (panics manifest_dir_not_set log) c (e, n) =
      Clean-NotInstalled before log n c
  locate_sdk-Clean before (panics (no_sdk root) log) c (t, n) = Clean-NotInstalled before log n c
  locate_sdk-Clean before (panics out_dir_not_set log) c l = absurd l
  locate_sdk-Clean before (panics (bindgen_failed hdr e) log) c l = absurd l
  locate_sdk-Clean before (panics (write_failed out e) log) c l = absurd l

  build_for-Clean : (sdk : Sdk) → HasHeader h sdk → Keeps h (Run.build_for h sdk)
  unfolding Run.build_for
  build_for-Clean sdk has log c =
      Holds-and_then (λ args after. IsIsolated h sdk args × Clean h after) (λ _. Clean h)
        (λ _. Clean h) (Sdk.clang_args h sdk log)
        (λ base. expect_out_dir (h.var (codes "OUT_DIR")) >>= Run.build_into h base)
        (clang_args-Isolated sdk log c)
        (λ base log1 r.
          Holds-and_then (λ _. Clean h) (λ _. Clean h) (λ _. Clean h)
            (expect_out_dir (h.var (codes "OUT_DIR")) log1) (Run.build_into h base)
            (expect_out_dir-Clean (h.var (codes "OUT_DIR")) log1 r.1)
            (λ out. build_into-Clean sdk base out has r.0))

  located-Clean :
      (log : List (Event h.Bindings))
      → Clean h log
      → Holds (λ _. Clean h) (λ _. Clean h) (and_then (Sdk.locate_sdk h log) (Run.build_for h))
  located-Clean log c =
      Holds-and_then (λ sdk after. HasHeader h sdk × Clean h after) (λ _. Clean h) (λ _. Clean h)
        (Sdk.locate_sdk h log) (Run.build_for h)
        (locate_sdk-Clean log (Sdk.locate_sdk h log) c (locate_sdk-Located h log))
        (λ sdk after r. build_for-Clean sdk r.0 after r.1)

  events-Clean :
      (o : Ran h.Bindings (Unit {0}))
      → Holds (λ _. Clean h) (λ _. Clean h) o
      → All (Sees h) (events o)
  events-Clean (returns a log) c = c
  events-Clean (panics p log) c = c

  -- However `main` ends, each time that it ran bindgen the directories that clang searched were that of
  -- its own headers, when that is known, and those of an SDK with its header, in this order and no others,
  -- and the flag -nostdinc shut out the directories of the host if and only if that of clang's own headers
  -- is known.
  pub main-Isolated : All (Sees h) (events (main h []))
  unfolding main
  main-Isolated = events-Clean _ (located-Clean _ (tt, (tt, (tt, (tt, (tt, (tt, tt)))))))
