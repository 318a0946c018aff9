-- ===== src/Restore/Aside.antt =====
-- What `MoveAside` of internal/restore/restore.go leaves of a folder.
use nomctl.Prelude.{
  eqb_false, ℕ, ◌≡◌, ◌≢◌, refl, subst, sym, ◌∙◌, ◌⊎◌, inl, inr, true, false, none, some, List, [],
  ◌∷◌, Text, text_eq, text_eqb_iff, ◌==◌, any, arith, ok, err, Result-cases, Bool-cases,
}
use nomctl.Prelude.Dict.{Dict, get, put, get-put_other, get-put_same}
use nomctl.Host.{
  Entry, Host, World, Act, ◌>>=◌, pure, or_else, exists, is_dir, is_there, is_dir_entry,
}
use nomctl.Host.Trees.{move_tree, Holds-move_tree, move_tree_failed, move_tree_done}
use nomctl.Restore.{Places, home, aside, Moving, taken_text, move_text, move_each}
use nomctl.Restore.Folders.{IsFolder, home-aside, home-home, aside-aside}

module _ (world : World) (at : Places) (stamp : ℕ) where
  abbrev move : Text → Act Unit
  move g = move_tree world (home at g) (aside at stamp g)

  -- How a step of the loop goes: the folder is not there, its safety copy is, the move fails, or it works.
  pub move_each-cases :
      (g : Text) (fs : List Text) (moved : Dict Text Text) (h : Host)
      → ((is_dir_entry (get (home at g) h.files) ≡ false)
          × (move_each world at stamp (g ∷ fs) moved h ≡ move_each world at stamp fs moved h))
        ⊎ ((x : Text) × (move_each world at stamp (g ∷ fs) moved h
              ≡ (ok (record { moved = moved; error = some x }), h)))
        ⊎ ((x y : Text) × (is_there (get (aside at stamp g) h.files) ≡ false)
            × ((move g h).0 ≡ err y)
            × (move_each world at stamp (g ∷ fs) moved h
                ≡ (ok (record { moved = moved; error = some x }), (move g h).1)))
        ⊎ ((is_there (get (aside at stamp g) h.files) ≡ false)
            × ((move g h).0 ≡ ok tt)
            × (move_each world at stamp (g ∷ fs) moved h
                ≡ move_each world at stamp fs (put g (aside at stamp g) moved) (move g h).1))
  unfolding move_each is_dir exists ◌>>=◌ or_else pure
  move_each-cases g fs moved h = elim (Bool-cases (is_dir_entry (get (home at g) h.files))) [
    | inr missing ↦ inl (missing, rw missing)
    | inl there ↦ elim (Bool-cases (is_there (get (aside at stamp g) h.files))) [
      | inl taken ↦ inr (inl (taken_text world at stamp g, (rw (there, taken))))
      | inr free ↦ elim (Result-cases (move g h).0) [
        | inr (y, failed) ↦
            inr (inr (inl (move_text world at g y, y, free, failed, (rw (there, free, failed)))))
        | inl (u, done) ↦ inr (inr (inr (free, done, (rw (there, free, done)))))
      ]
    ]
  ]

abbrev pub IsIn : Text → List Text → Type 0
IsIn f fs = any (λ g. g == f) fs ≡ true

abbrev pub AreFolders : List Text → Type 0
AreFolders [] = Unit
AreFolders (g ∷ fs) = IsFolder g × AreFolders fs

module _ (world : World) (at : Places) (stamp : ℕ) (f : Text) (e : Entry) where
  abbrev pub IsHome : Host → Type 0
  IsHome h = get (home at f) h.files ≡ some e

  abbrev pub IsAside : Host → Type 0
  IsAside h = get (aside at stamp f) h.files ≡ some e

  abbrev pub WasMoved : Dict Text Text → Type 0
  WasMoved moved = get f moved ≡ some (aside at stamp f)

  -- The folder is where the record of the moves says.
  abbrev pub IsTracked : Dict Text Text → Host → Type 0
  IsTracked moved h = (WasMoved moved × IsAside h) ⊎ ((get f moved ≡ none) × IsHome h)

  -- The folder is tracked, was not forgotten, and was moved if the loop went through the folders.
  abbrev pub IsCarried : List Text → Dict Text Text → Moving → Host → Type 0
  IsCarried fs moved m h =
      IsTracked m.moved h
      × (WasMoved moved → WasMoved m.moved)
      × (m.error ≡ none → IsIn f fs → WasMoved m.moved)

  module _ (is_folder : IsFolder f) (a_dir : e.is_dir ≡ true) where
    WasMoved-put :
        (g : Text) (moved : Dict Text Text)
        → WasMoved moved
        → WasMoved (put g (aside at stamp g) moved)
    WasMoved-put g moved was = elim (Bool-cases (g == f)) [
      | inl one ↦
          subst (λ x. get f (put x (aside at stamp x) moved) ≡ some (aside at stamp f))
            (sym ((text_eqb_iff g f).0 one)) (get-put_same f (aside at stamp f) moved)
      | inr two ↦ get-put_other g f (aside at stamp g) moved (eqb_false g f two) ∙ was
    ]

    -- The moving of the folder itself.
    own_move :
        (moved : Dict Text Text) (h : Host)
        → is_there (get (aside at stamp f) h.files) ≡ false
        → (move world at stamp f h).0 ≡ ok tt
        → IsTracked moved h
        → IsTracked (put f (aside at stamp f) moved) (move world at stamp f h).1
    own_move moved h free done (inl (was, kept)) = absurd (ground arith)
    own_move moved h free done (inr (none_moved, kept)) = inl (
      get-put_same f (aside at stamp f) moved,
      move_tree_done world (home at f) (aside at stamp f) h done ∙ kept,
    )

    own_failure :
        (y : Text) (moved : Dict Text Text) (h : Host)
        → is_there (get (aside at stamp f) h.files) ≡ false
        → (move world at stamp f h).0 ≡ err y
        → IsTracked moved h
        → IsTracked moved (move world at stamp f h).1
    own_failure y moved h free failed (inl (was, kept)) = absurd (ground arith)
    own_failure y moved h free failed (inr (none_moved, kept)) = inr (
      none_moved,
      move_tree_failed world (home at f) (aside at stamp f) h y (home-aside at stamp f f is_folder)
            failed
          ∙ kept,
    )

    -- The moving of another folder.
    other_move :
        (g : Text) (moved moved' : Dict Text Text) (h : Host)
        → IsFolder g
        → g ≢ f
        → get f moved' ≡ get f moved
        → IsTracked moved h
        → IsTracked moved' (move world at stamp g h).1
    other_move g moved moved' h g_is ne same (inl (was, kept)) = inl (
      same ∙ was,
      (Holds-move_tree world (aside at stamp f) (some e) (home at g) (aside at stamp g)
            (home-aside at stamp g f g_is) (aside-aside at stamp g f ne)).at
          h kept,
    )
    other_move g moved moved' h g_is ne same (inr (none_moved, kept)) = inr (
      same ∙ none_moved,
      (Holds-move_tree world (home at f) (some e) (home at g) (aside at stamp g)
            (home-home at g f ne) (λ q. home-aside at stamp f g is_folder (sym q))).at
          h kept,
    )

    IsTracked-done :
        (g : Text) (moved : Dict Text Text) (h : Host)
        → IsFolder g
        → is_there (get (aside at stamp g) h.files) ≡ false
        → (move world at stamp g h).0 ≡ ok tt
        → IsTracked moved h
        → IsTracked (put g (aside at stamp g) moved) (move world at stamp g h).1
    IsTracked-done g moved h g_is free done tracked = elim (Bool-cases (g == f)) [
      | inl one ↦
          subst
            (λ x.
              is_there (get (aside at stamp x) h.files) ≡ false
              → (move world at stamp x h).0 ≡ ok tt
              → IsTracked (put x (aside at stamp x) moved) (move world at stamp x h).1)
            (sym ((text_eqb_iff g f).0 one)) (λ free' done'. own_move moved h free' done' tracked)
            free done
      | inr two ↦
          other_move g moved _ h g_is (eqb_false g f two)
            (get-put_other g f (aside at stamp g) moved (eqb_false g f two)) tracked
    ]

    IsTracked-failed :
        (g y : Text) (moved : Dict Text Text) (h : Host)
        → IsFolder g
        → is_there (get (aside at stamp g) h.files) ≡ false
        → (move world at stamp g h).0 ≡ err y
        → IsTracked moved h
        → IsTracked moved (move world at stamp g h).1
    IsTracked-failed g y moved h g_is free failed tracked = elim (Bool-cases (g == f)) [
      | inl one ↦
          subst
            (λ x.
              is_there (get (aside at stamp x) h.files) ≡ false
              → (move world at stamp x h).0 ≡ err y
              → IsTracked moved (move world at stamp x h).1)
            (sym ((text_eqb_iff g f).0 one))
            (λ free' failed'. own_failure y moved h free' failed' tracked) free failed
      | inr two ↦ other_move g moved moved h g_is (eqb_false g f two) refl tracked
    ]

    -- After a move or a skip, the folder was moved if it was the one met.
    met :
        (g : Text) (fs : List Text) (moved moved' : Dict Text Text)
        → (g ≡ f → WasMoved moved')
        → (WasMoved moved' → WasMoved moved)
        → (IsIn f fs → WasMoved moved)
        → IsIn f (g ∷ fs)
        → WasMoved moved
    met g fs moved moved' here on later is_in = elim (Bool-cases (g == f)) [
      | inl one ↦ on (here ((text_eqb_iff g f).0 one))
      | inr two ↦ later (ground arith)
    ]

    -- A folder that is there is not skipped.
    not_skipped :
        (g : Text) (moved : Dict Text Text) (h : Host)
        → is_dir_entry (get (home at g) h.files) ≡ false
        → IsTracked moved h
        → g ≡ f
        → WasMoved moved
    not_skipped g moved h missing (inl (was, kept)) q = was
    not_skipped g moved h missing (inr (none_moved, kept)) q = absurd (
        let gone = subst (λ x. is_dir_entry (get (home at x) h.files) ≡ false) q missing in
        ground arith)

    pub move_each_lem :
        (fs : List Text) (moved : Dict Text Text) (h : Host)
        → AreFolders fs
        → IsTracked moved h
        → (m : Moving) × ((move_each world at stamp fs moved h).0 ≡ ok m)
          × IsCarried fs moved m (move_each world at stamp fs moved h).1
    unfolding move_each pure
    move_each_lem [] moved h are tracked = (
      record { moved = moved; error = none },
      refl,
      (tracked, (λ was. was), (λ no is_in. absurd (ground arith))),
    )
    move_each_lem (g ∷ fs) moved h (g_is, are) tracked =
        elim (move_each-cases world at stamp g fs moved h) [
          | inl (missing, same) ↦
              (let (m, result, (now, on, later)) = move_each_lem fs moved h are tracked in
                rw same (
                  m,
                  result,
                  (
                    now,
                    on,
                    (λ no.
                        met g fs m.moved moved (not_skipped g moved h missing tracked) on
                          (later no)),
                  ),
                ))
          | inr (inl (x, same)) ↦ rw same (
            record { moved = moved; error = some x },
            refl,
            (tracked, (λ was. was), (λ no. absurd (ground arith))),
          )
          | inr (inr (inl (x, y, free, failed, same))) ↦ rw same (
            record { moved = moved; error = some x },
            refl,
            (
              IsTracked-failed g y moved h g_is free failed tracked,
              (λ was. was),
              (λ no. absurd (ground arith)),
            ),
          )
          | inr (inr (inr (free, done, same))) ↦
              (let moved' = put g (aside at stamp g) moved in
                let (m, result, (now, on, later)) =
                  move_each_lem fs moved' (move world at stamp g h).1 are
                    (IsTracked-done g moved h g_is free done tracked) in
                rw same (
                  m,
                  result,
                  (
                    now,
                    (λ was. on (WasMoved-put g moved was)),
                    (λ no.
                        met g fs m.moved moved'
                          (λ q.
                            subst
                              (λ x.
                                get f (put x (aside at stamp x) moved) ≡ some (aside at stamp f))
                              (sym q) (get-put_same f (aside at stamp f) moved))
                          on (later no)),
                  ),
                ))
        ]
