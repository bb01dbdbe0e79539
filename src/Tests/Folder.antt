-- ===== src/Tests/Folder.antt =====
-- A platform for the tests with one directory, and the theorems on directories at it.
use ps_payload_rust.Base.{
  some, ◌≡◌, ◌≢◌, refl, true, false, ◌⊎◌, inl, inr, List, [], ◌∷◌, ◌++◌, Bytes, codes, length,
  arith, Lacks,
}
use ps_payload_rust.Base.Int.{ℤ, pos, eq_ℤ}
use ps_payload_rust.Std.Utf8.{is_utf8, is_utf8_ascii}
use ps_payload_rust.Sys.{Sys, Call, Reply, Dirent}
use ps_payload_rust.Ps5.Effect.{World}
use ps_payload_rust.Ps5.Fs.Dir.{ReadDir, dirent_name}
use ps_payload_rust.Ps5.Fs.Names.{name_of, dirent_name-name_of, dirent_name_lem}
use ps_payload_rust.Ps5.Frame.{called}
use ps_payload_rust.Ps5.Fs.Runs.{Runs}
use ps_payload_rust.Ps5.Fs.Listing.{DirLaws}
use ps_payload_rust.Tests.Scripted.{scripted, reply}

record Folder : Type 0 where
  pub to_come : List Dirent
  pub errno : ℤ

abbrev next_of : List Dirent → Folder → Reply × Folder
next_of [] s = (reply (pos 0) [], s)
next_of (e ∷ es) s = (record (reply (pos 1) []) { entry = e }, record s { to_come = es })

abbrev respond : Call → Folder → Reply × Folder
respond Call.clear_errno s = (reply (pos 0) [], record s { errno = pos 0 })
respond (Call.readdir d) s = next_of s.to_come s
respond (Call.opendir path) s = (reply (pos 1) [], s)
respond c s = (reply (pos 0) [], s)

abbrev folder : Sys
folder = record scripted { State = Folder; errno = λ s. s.errno; respond = respond }

-- The end of the listing, or the next entry.
next_of_listed :
    (all : List Dirent) (s : Folder)
    → s.to_come ≡ all
    → let r = next_of all s in
      ((r.0.ret ≡ pos 0) × (r.1.errno ≢ pos 0))
      ⊎ (((r.0.ret ≡ pos 0) × (r.1.errno ≡ s.errno) × (s.to_come ≡ []))
          ⊎ ((rest : List Dirent) × (eq_ℤ r.0.ret (pos 0) ≡ false)
              × (s.to_come ≡ r.0.entry ∷ rest)
              × (r.1.to_come ≡ rest)))
next_of_listed [] s e = inr (inl (refl, refl, e))
next_of_listed (x ∷ es) s e = inr (inr (es, refl, e, refl))

abbrev folder-DirLaws : DirLaws folder
folder-DirLaws = record {
  listing = λ s d. s.to_come;
  cleared = λ s d. (refl, refl);
  listed = λ s d. next_of_listed s.to_come s refl;
}

abbrev named : Bytes → Dirent
named name = record { d_namlen = length name; d_name = name ++ 0 ∷ [] }

-- The stream is in front of "..", with an old error in `errno`.
abbrev opened : World Folder
opened = record {
  os = record {
    to_come = named (codes "..") ∷ named (codes "saves") ∷ named (codes "log.txt") ∷ [];
    errno = pos 2;
  };
  events = [];
}

abbrev stream : ReadDir
stream = record { dir = pos 1 }

-- The same behind the call that opened the directory.
abbrev entered : World Folder
entered = called folder (Call.opendir (codes "/data")) opened

-- The name is longer than `d_namlen` says, and ends in the middle of a character.
abbrev torn : Dirent
torn = record { d_namlen = 3; d_name = 97 ∷ 0xE2 ∷ 0x82 ∷ 0xAC ∷ 0 ∷ [] }

dirent_name-name_of_example :
    (dirent_name torn ≡ some (name_of torn)) × (is_utf8 (name_of torn) ≡ true)
dirent_name-name_of_example = dirent_name-name_of torn

ab_good : is_utf8 (97 ∷ 98 ∷ []) ≡ true
ab_good = is_utf8_ascii (97 ∷ 98 ∷ []) (omega arith, (omega arith, tt))

ab-Lacks : Lacks 0 (97 ∷ 98 ∷ [])
ab-Lacks = ((λ h. cc), ((λ h. cc), tt))

dirent_name_lem_example :
    dirent_name (record { d_namlen = 5; d_name = (97 ∷ 98 ∷ []) ++ 0 ∷ 99 ∷ 100 ∷ [] })
    ≡ some (97 ∷ 98 ∷ [])
dirent_name_lem_example =
    dirent_name_lem (97 ∷ 98 ∷ []) (99 ∷ 100 ∷ []) 5 ab_good ab-Lacks (omega arith)
