-- ===== src/BuildScript/Built.antt =====
-- crates/ps5-sys/build.rs, `main`: the bindings written and the libraries linked.
use ps_payload_rust.Base.{
  ◌≡◌, ◌∙◌, refl, ◌⊎◌, inl, inr, Bool, true, false, List, [], ◌∷◌, ◌++◌, append_assoc, Option, none,
  some, Bytes, codes,
}
use ps_payload_rust.BuildScript.{
  Builder, Host, Event, generated, Panic, Ran, returns, panics, Script, when, manifest_dir_not_set,
  no_sdk, out_dir_not_set, bindgen_failed, write_failed,
}
use ps_payload_rust.BuildScript.Domains.{
  Domain, ps5, fs, net, thread, target, header_name, allowlist, headers_of, allowed, is_set, chosen,
  libraries,
}
use ps_payload_rust.BuildScript.Sdk.{Sdk, installed, source}
use ps_payload_rust.BuildScript.Run.{base_builder, written_to, write_bindings, generate}
use ps_payload_rust.BuildScript.Steps.{Holds, Build, builds, linked}
use ps_payload_rust.BuildScript.Located.{IsInstalled, InTree}

module _ (h : Host) where
  -- Cargo sets a variable for each feature that is on.
  abbrev pub is_on : Domain → Bool
  is_on ps5 = true
  is_on fs = is_set (h.var (codes "CARGO_FEATURE_FS"))
  is_on net = is_set (h.var (codes "CARGO_FEATURE_NET"))
  is_on thread = is_set (h.var (codes "CARGO_FEATURE_THREAD"))

  abbrev pub http_is_on : Bool
  http_is_on = is_set (h.var (codes "CARGO_FEATURE_HTTP"))

  -- The core always, and what the features choose.
  abbrev pub domains : List Domain
  domains = ps5 ∷ chosen (is_on fs) fs (chosen (is_on net) net (chosen (is_on thread) thread []))

  abbrev pub HasHeader : Sdk → Type 0
  HasHeader (installed root) = IsInstalled h root
  HasHeader (source root) = InTree h root true

  -- What the host must have done for each panic.
  abbrev pub IsCause : Panic → Type 0
  IsCause out_dir_not_set = h.var (codes "OUT_DIR") ≡ none
  IsCause manifest_dir_not_set = h.var (codes "CARGO_MANIFEST_DIR") ≡ none
  IsCause (no_sdk root) = InTree h root false
  IsCause (bindgen_failed hdr e) = (b : Builder) × (h.generate b ≡ inr e)
  IsCause (write_failed out e) = (b : h.Bindings) × (h.write_to_file b out ≡ some e)

  -- The file of a domain: bindgen gave the bindings for its header and its allowlists, and they went
  -- where they belong.
  abbrev pub IsBuild : Bytes → Domain → Build h.Bindings → Type 0
  IsBuild out d x =
      (h.generate x.builder ≡ inl x.bindings)
      × (x.file ≡ target out d)
      × (headers_of x.builder ≡ header_name d ∷ [])
      × (allowed x.builder ≡ allowlist d)

  -- These are the files of these domains, one for one.
  abbrev pub AreBuilds : Bytes → List Domain → List (Build h.Bindings) → Type 0
  AreBuilds out [] [] = Unit
  AreBuilds out [] (x ∷ xs) = ⊥
  AreBuilds out (d ∷ ds) [] = ⊥
  AreBuilds out (d ∷ ds) (x ∷ xs) = IsBuild out d x × AreBuilds out ds xs

  -- The files of all domains but the rest are written, and no library is linked yet.
  abbrev pub Reached : Bytes → List Domain → List (Event h.Bindings) → Type 0
  Reached out rest log =
      (done : List Domain) × (done ++ rest ≡ domains)
      × AreBuilds out done (builds log)
      × (linked log ≡ [])

  abbrev pub Stopped : Panic → List (Event h.Bindings) → Type 0
  Stopped p log = IsCause p × ((out : Bytes) × (rest : List Domain) × Reached out rest log)

  -- An SDK was found, the bindings of all domains are in the output directory, and the libraries are
  -- linked.
  abbrev pub Complete : List (Event h.Bindings) → Type 0
  Complete log =
      (sdk : Sdk) × HasHeader sdk
      × ((out : Bytes) × (h.var (codes "OUT_DIR") ≡ some out)
          × AreBuilds out domains (builds log)
          × (linked log ≡ libraries http_is_on))

  abbrev pub Built : Ran h.Bindings (Unit {0}) → Type 0
  Built = Holds (λ _. Complete) Stopped

  -- The run writes the file of this domain, or nothing, and links nothing.
  abbrev pub Writes : Bytes → Domain → List (Event h.Bindings) → Ran h.Bindings (Unit {0}) → Type 0
  Writes out d before (returns a log) =
      ((x : Build h.Bindings) × IsBuild out d x × (builds log ≡ builds before ++ (x ∷ [])))
      × (linked log ≡ linked before)
  Writes out d before (panics p log) =
      IsCause p × (builds log ≡ builds before) × (linked log ≡ linked before)

  written_to-Writes :
      (out : Bytes) (d : Domain) (g : Builder) (b : h.Bindings) (r : Option Bytes)
      (log : List (Event h.Bindings))
      → h.generate g ≡ inl b
      → headers_of g ≡ header_name d ∷ []
      → allowed g ≡ allowlist d
      → h.write_to_file b (target out d) ≡ r
      → Writes out d log (written_to b (target out d) r (generated g ∷ log))
  written_to-Writes out d g b none log made hs lets e = (
    (record { builder = g; bindings = b; file = target out d }, (made, refl, hs, lets), refl),
    refl,
  )
  written_to-Writes out d g b (some m) log made hs lets e = ((b, e), refl, refl)

  write_bindings-Writes :
      (out : Bytes) (d : Domain) (g : Builder) (r : h.Bindings ⊎ Bytes)
      (log : List (Event h.Bindings))
      → headers_of g ≡ header_name d ∷ []
      → allowed g ≡ allowlist d
      → h.generate g ≡ r
      → Writes out d log (write_bindings h (header_name d) (target out d) r (generated g ∷ log))
  write_bindings-Writes out d g (inl b) log hs lets e =
      written_to-Writes out d g b (h.write_to_file b (target out d)) log e hs lets refl
  write_bindings-Writes out d g (inr m) log hs lets e = ((g, e), refl, refl)

  pub generate-Writes :
      (out : Bytes) (d : Domain) (base : List Bytes) (configure : Builder → Builder)
      → headers_of (configure (base_builder base (header_name d))) ≡ header_name d ∷ []
      → allowed (configure (base_builder base (header_name d))) ≡ allowlist d
      → (log : List (Event h.Bindings))
      → Writes out d log (generate h base (header_name d) (target out d) configure log)
  unfolding generate
  generate-Writes out d base configure hs lets log =
      let g = configure (base_builder base (header_name d)) in
      write_bindings-Writes out d g (h.generate g) log hs lets refl

  AreBuilds-append :
      (out : Bytes) (done : List Domain) (d : Domain) (xs : List (Build h.Bindings))
      (x : Build h.Bindings)
      → AreBuilds out done xs
      → IsBuild out d x
      → AreBuilds out (done ++ (d ∷ [])) (xs ++ (x ∷ []))
  AreBuilds-append out [] d [] x all this = (this, tt)
  AreBuilds-append out [] d (y ∷ xs) x all this = absurd all
  AreBuilds-append out (e ∷ done) d [] x all this = absurd all
  AreBuilds-append out (e ∷ done) d (y ∷ xs) x (first, all) this =
      (first, AreBuilds-append out done d xs x all this)

  pub reach :
      (out : Bytes) (d : Domain) (rest : List Domain) (log : List (Event h.Bindings))
      (o : Ran h.Bindings (Unit {0}))
      → Writes out d log o
      → Reached out (d ∷ rest) log
      → Holds (λ _. Reached out rest) Stopped o
  reach out d rest log (returns a after) ((x, this, w), l) (done, all, files, none_yet) = (
    done ++ (d ∷ []),
    append_assoc done (d ∷ []) rest ∙ all,
    rw w (AreBuilds-append out done d (builds log) x files this),
    l ∙ none_yet,
  )
  reach out d rest log (panics p after) (c, w, l) (done, all, files, none_yet) =
      (c, (out, d ∷ rest, (done, all, rw w files, l ∙ none_yet)))

  pub reach_when :
      (out : Bytes) (d : Domain) (rest : List Domain) (m : Script h.Bindings (Unit {0}))
      → ((log : List (Event h.Bindings)) → Writes out d log (m log))
      → (c : Bool) (log : List (Event h.Bindings)) → Reached out (chosen c d rest) log
      → Holds (λ _. Reached out rest) Stopped (when c m log)
  reach_when out d rest m w true log r = reach out d rest log (m log) (w log) r
  reach_when out d rest m w false log r = r
