-- ===== src/Ps5/Http/Lifecycle.antt =====
-- crates/ps5/src/http.rs: `Client::new` and the drop of a client, against what they hold.
use ps_payload_rust.Base.{◌≡◌, ◌∙◌, List, ◌∷◌, some, Bytes, codes, Bool-cases, inl, inr}
use ps_payload_rust.Base.Int.{ℤ, pos, is_negative, eq_ℤ}
use ps_payload_rust.Sys.{Sys, Call, Reply}
use ps_payload_rust.Ps5.Effect.{World}
use ps_payload_rust.Ps5.Frame.{called}
use ps_payload_rust.Ps5.Util.{cstr, has_nul}
use ps_payload_rust.Ps5.Ownership.{
  Resource, resource, net_pool, ssl_context, http2_context, template, owned, Owns, release_top,
  owned-called,
}
use ps_payload_rust.Ps5.Http.{
  Client, create_template, init_http2, init_ssl, create_pool, new_client, drop_client,
}

-- What a client holds, youngest first.
abbrev pub handles : List Resource → Client → List Resource
handles held c =
    resource template c.tmpl_id
    ∷ resource http2_context c.lib_ctx_id
    ∷ resource ssl_context c.ssl_ctx_id
    ∷ resource net_pool c.net_mem_id
    ∷ held

module _ (K : Sys) (held : List Resource) where
  pool_destroyed :
      (net : ℤ) (w : World K.State)
      → owned w.events ≡ some (resource net_pool net ∷ held)
      → owned (called K (Call.sce_net_pool_destroy net) w).events ≡ some held
  pool_destroyed net w h =
      owned-called K (Call.sce_net_pool_destroy net) w _ h ∙ release_top net_pool net held

  ssl_terminated :
      (ssl net : ℤ) (w : World K.State)
      → owned w.events ≡ some (resource ssl_context ssl ∷ resource net_pool net ∷ held)
      → owned (called K (Call.sce_net_pool_destroy net) (called K (Call.sce_ssl_term ssl) w)).events
        ≡ some held
  ssl_terminated ssl net w h =
      pool_destroyed net (called K (Call.sce_ssl_term ssl) w)
        (owned-called K (Call.sce_ssl_term ssl) w _ h ∙ release_top ssl_context ssl _)

  http2_terminated :
      (lib ssl net : ℤ) (w : World K.State)
      → owned w.events
        ≡ some
            (resource http2_context lib ∷ resource ssl_context ssl ∷ resource net_pool net ∷ held)
      → owned
          (called K
            (Call.sce_net_pool_destroy net)
            (called K (Call.sce_ssl_term ssl) (called K (Call.sce_http2_term lib) w))).events
        ≡ some held
  http2_terminated lib ssl net w h =
      ssl_terminated ssl net (called K (Call.sce_http2_term lib) w)
        (owned-called K (Call.sce_http2_term lib) w _ h ∙ release_top http2_context lib _)

  create_template-Owns :
      (agent : Bytes) (net ssl lib : ℤ) (w : World K.State)
      → owned w.events
        ≡ some
            (resource http2_context lib ∷ resource ssl_context ssl ∷ resource net_pool net ∷ held)
      → Owns held (handles held) (create_template K agent net ssl lib w)
  unfolding create_template
  create_template-Owns agent net ssl lib w h = elim (Bool-cases (is_negative r.ret)) [
    | inl e ↦
        rw (Owns, create_template, e)
          (http2_terminated lib ssl net (called K c w) (owned-called K c w _ h ∙ rw e))
    | inr e ↦ rw (Owns, create_template, e) (owned-called K c w _ h ∙ rw e)
  ]
    where
      c : Call
      c = Call.sce_http2_create_template lib agent (pos 3) (pos 1)

      r : Reply
      r = (K.respond c w.os).0

  init_http2-Owns :
      (agent : Bytes) (net ssl : ℤ) (w : World K.State)
      → owned w.events ≡ some (resource ssl_context ssl ∷ resource net_pool net ∷ held)
      → Owns held (handles held) (init_http2 K agent net ssl w)
  unfolding init_http2
  init_http2-Owns agent net ssl w h = elim (Bool-cases (is_negative r.ret)) [
    | inl e ↦
        rw (Owns, init_http2, e)
          (ssl_terminated ssl net (called K c w) (owned-called K c w _ h ∙ rw e))
    | inr e ↦
        rw (Owns, init_http2, e)
          (create_template-Owns agent net ssl r.ret (called K c w) (owned-called K c w _ h ∙ rw e))
  ]
    where
      c : Call
      c = Call.sce_http2_init net ssl 262_144 (pos 1)

      r : Reply
      r = (K.respond c w.os).0

  init_ssl-Owns :
      (agent : Bytes) (net : ℤ) (w : World K.State)
      → owned w.events ≡ some (resource net_pool net ∷ held)
      → Owns held (handles held) (init_ssl K agent net w)
  unfolding init_ssl
  init_ssl-Owns agent net w h = elim (Bool-cases (is_negative r.ret)) [
    | inl e ↦
        rw (Owns, init_ssl, e) (pool_destroyed net (called K c w) (owned-called K c w _ h ∙ rw e))
    | inr e ↦
        rw (Owns, init_ssl, e)
          (init_http2-Owns agent net r.ret (called K c w) (owned-called K c w _ h ∙ rw e))
  ]
    where
      c : Call
      c = Call.sce_ssl_init 262_144

      r : Reply
      r = (K.respond c w.os).0

  create_pool-Owns :
      (agent : Bytes) (w : World K.State)
      → owned w.events ≡ some held
      → Owns held (handles held) (create_pool K agent w)
  unfolding create_pool
  create_pool-Owns agent w h = elim (Bool-cases (is_negative r.ret)) [
    | inl e ↦ rw (Owns, create_pool, e) (owned-called K c w _ h ∙ rw e)
    | inr e ↦
        rw (Owns, create_pool, e)
          (init_ssl-Owns agent r.ret (called K c w) (owned-called K c w _ h ∙ rw e))
  ]
    where
      c : Call
      c = Call.sce_net_pool_create (codes "ps5_http") (pos 32_768) (pos 0)

      r : Reply
      r = (K.respond c w.os).0

  -- `Client::new` ends with the four handles of the client it returns on top of what was held
  -- before, the youngest first, or with an error, and then all that it created is released again,
  -- each handle before the older ones, whichever call of the chain failed.
  pub new_client-Owns :
      (user_agent : Bytes) (w : World K.State)
      → owned w.events ≡ some held
      → Owns held (handles held) (new_client K user_agent w)
  unfolding new_client
  new_client-Owns user_agent w h = elim (Bool-cases (has_nul user_agent)) [
    | inl e ↦ rw (Owns, new_client, cstr, e) h
    | inr e ↦ elim (Bool-cases (eq_ℤ r.ret (pos 0))) [
      | inl fine ↦
          rw (Owns, new_client, cstr, e, fine)
            (create_pool-Owns user_agent (called K Call.sce_net_init w)
              (owned-called K Call.sce_net_init w _ h))
      | inr failed ↦ rw (Owns, new_client, cstr, e, failed) (owned-called K Call.sce_net_init w _ h)
    ]
  ]
    where
      r : Reply
      r = (K.respond Call.sce_net_init w.os).0

  -- Dropping a client whose handles are the youngest releases all four, each before the older ones,
  -- whatever the calls answer.
  pub drop_client-Owns :
      (c : Client) (w : World K.State)
      → owned w.events ≡ some (handles held c)
      → Owns held (λ _. held) (drop_client K c w)
  unfolding drop_client
  drop_client-Owns c w h =
      http2_terminated c.lib_ctx_id c.ssl_ctx_id c.net_mem_id
        (called K (Call.sce_http2_delete_template c.tmpl_id) w)
        (owned-called K (Call.sce_http2_delete_template c.tmpl_id) w _ h
          ∙ release_top template c.tmpl_id _)
