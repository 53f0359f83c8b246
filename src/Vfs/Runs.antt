-- ===== src/Vfs/Runs.antt =====
-- vfs/server.go: runs of the server from the file system that `NewMemFS` makes.
use toolbox.Prelude.{
  ℕ, true, List, [], ◌∷◌, All, Option, none, some, ◌≡◌, refl, arith, subst, inl, inr, Option-cases,
}
use toolbox.Prelude.Text.{Text, text_eq, text_eq_iff}
use toolbox.Prelude.Assoc.{lookup}
use toolbox.Vfs.Path.{clean_path, path_dir, render, segments, up_to_last_slash}
use toolbox.Vfs.MemFs.{root, new_mem_fs, exists_at, is_dir_at}
use toolbox.Vfs.Server.{Request, Response, Server, Env, op_tag, dispatch, serve, new_server}
use toolbox.Vfs.Tree.{IsTree}
use toolbox.Vfs.Steps.{Keeps, IsPlain, dispatch-IsTree}

only_root : (now : ℕ) (k : Text) → exists_at k (new_mem_fs now) ≡ true → root ≡ k
unfolding new_mem_fs exists_at lookup
only_root now k h = (text_eq_iff root k).0 (ground arith)

pub new_mem_fs-IsTree : (now : ℕ) → IsTree (new_mem_fs now)
unfolding new_mem_fs is_dir_at lookup text_eq clean_path path_dir render segments up_to_last_slash
new_mem_fs-IsTree now = record {
  root_dir = refl;
  clean = λ k h. subst (λ j. clean_path j ≡ j) (only_root now k h) refl;
  parents =
      λ k h. subst (λ j. is_dir_at (path_dir j) (new_mem_fs now) ≡ true) (only_root now k h) refl;
}

abbrev pub ArePlain : List (Env × Request) → Type 0
ArePlain = All (λ r. IsPlain (op_tag r.1.op) r.1)

-- What a run of the server leaves; after a panic nothing is left.
abbrev pub KeepsAll : Option (Server × List Response) → Type 0
KeepsAll none = Unit
KeepsAll (some (s, resps)) = IsTree s.fs

serve-KeepsAll :
    (reqs : List (Env × Request)) (s : Server)
    → ArePlain reqs
    → IsTree s.fs
    → KeepsAll (serve reqs s)
unfolding serve
serve-KeepsAll [] s plain t = t
serve-KeepsAll ((env, req) ∷ reqs) s plain t = elim (Option-cases (dispatch env req s)) [
  | inl stops ↦ rw (serve, stops) tt
  | inr ((s', resp), steps) ↦
      let t' : IsTree s'.fs =
        unfold Keeps in subst Keeps steps (dispatch-IsTree env req s plain.0 t) in
      let later = serve-KeepsAll reqs s' plain.1 t' in
      elim (Option-cases (serve reqs s')) [
        | inl stops ↦ rw (serve, steps, stops) tt
        | inr ((s'', resps), runs) ↦ rw (serve, steps, runs) (subst KeepsAll runs later)
      ]
]

-- A server that starts on a new file system and answers any requests, none of which is a rename or
-- removes the root, has a tree when it has answered them, unless a request panics.
pub serve-IsTree :
    (now : ℕ) (reqs : List (Env × Request))
    → ArePlain reqs
    → KeepsAll (serve reqs (new_server (new_mem_fs now)))
serve-IsTree now reqs plain =
    serve-KeepsAll reqs (new_server (new_mem_fs now)) plain (new_mem_fs-IsTree now)
