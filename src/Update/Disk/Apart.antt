-- ===== src/Update/Disk/Apart.antt =====
-- Which files an operation on another file leaves alone.
use nomctl.Prelude.{
  ℕ, ◌<◌, ◌≡◌, ◌≢◌, inl, inr, false, some, [], ◌∷◌, Text, text_eq, arith, eqb_ne, text_eqb_iff,
  nat_eqb, Bool-cases, Option-cases,
}
use nomctl.Prelude.Dict.{Dict, get, get-put, dict_laws}
use nomctl.Host.{World}
use nomctl.Host.Keeps.{Keeps}
use nomctl.Update.Disk.{
  Disk, fresh, inode_at, with_text, copied, rename, link, remove_file, copy_file,
}

-- The name q leads to the file n with this content, and the name w to no file or another one.
pub record Stands (q : Text) (n : ℕ) (c w : Text) (d : Disk) : Type 0 where
  pub at : get q d.names ≡ some n
  pub text : d.held n ≡ c
  pub away : get w d.names ≢ some n

pub fresh-bound : (q : Text) (n : ℕ) (names : Dict Text ℕ) → get q names ≡ some n → n < fresh names
unfolding get fresh
fresh-bound q n [] h = absurd (ground arith)
fresh-bound q n ((p, i) ∷ names) h = ground (arith, fresh-bound q n names)

-- The file that a write to w opens is not n.
pub inode_at_ne :
    (q w : Text) (n : ℕ) (d : Disk)
    → get q d.names ≡ some n
    → get w d.names ≢ some n
    → nat_eqb (inode_at w d) n ≡ false
inode_at_ne q w n d at away = ground (arith, fresh-bound q n d.names)

Stands-with_text :
    (q : Text) (n : ℕ) (c w to t : Text) (d : Disk)
    → to ≢ q
    → get to d.names ≢ some n
    → Stands q n c w d
    → Stands q n c w (with_text to t d)
Stands-with_text q n c w to t d ne off s =
    let other = inode_at_ne q to n d s.at off in
    record {
      at = ground (arith, get-put to q (inode_at to d) d.names, eqb_ne to q ne, s.at);
      text = rw other s.text;
      away = λ h.
          s.away (ground (arith, other, get-put to w (inode_at to d) d.names, text_eqb_iff to w));
    }

module _ (world : World) (q : Text) (n : ℕ) (c w : Text) where
  -- What is written beside does not reach the file.
  pub Stands-copy_file :
      (from to : Text) (d : Disk)
      → to ≢ q
      → get to d.names ≢ some n
      → Stands q n c w d
      → Stands q n c w (copy_file world from to d).1
  unfolding copy_file
  Stands-copy_file from to d ne off s =
      let kept = λ (t : Text). Stands-with_text q n c w to t d ne off s in
      elim (Option-cases (get from d.names)) [
        | inl gone ↦ rw (gone, copy_file) (record { at = s.at; text = s.text; away = s.away })
        | inr (i, there) ↦ elim (Bool-cases (world.fails d.calls)) [
          | inr fine ↦ rw (there, copy_file, fine) (kept (copied i to d))
          | inl broken ↦ elim (Option-cases (world.torn d.calls)) [
            | inl whole ↦
                rw (there, copy_file, broken, whole)
                  (record { at = s.at; text = s.text; away = s.away })
            | inr (t, torn) ↦ rw (there, copy_file, broken, torn) (kept t)
          ]
        ]
      ]

  pub Stands-copy_file_away :
      (from : Text) → w ≢ q → Keeps (Stands q n c w) (copy_file world from w)
  Stands-copy_file_away from ne = record { at = λ d s. Stands-copy_file from w d ne s.away s }

  pub Stands-remove_file : (p : Text) → p ≢ q → Keeps (Stands q n c w) (remove_file world p)
  unfolding remove_file
  Stands-remove_file p ne = record {
    at = λ d s. record {
      at = grind (arith, dict_laws, eqb_ne p q ne, s.at);
      text = ground (arith, s.text);
      away = λ h. s.away (grind (arith, dict_laws));
    };
  }

  pub Stands-link : (from to : Text) → to ≢ q → to ≢ w → Keeps (Stands q n c w) (link world from to)
  unfolding link
  Stands-link from to ne ne' = record {
    at = λ d s. record {
      at = grind (arith, dict_laws, eqb_ne to q ne, s.at);
      text = ground (arith, s.text);
      away = λ h. s.away (grind (arith, dict_laws, eqb_ne to w ne'));
    };
  }

  pub Stands-rename :
      (from to : Text) → from ≢ q → to ≢ q → to ≢ w → Keeps (Stands q n c w) (rename world from to)
  unfolding rename
  Stands-rename from to ne ne' ne_w = record {
    at = λ d s. record {
      at = grind (arith, dict_laws, eqb_ne from q ne, eqb_ne to q ne', s.at);
      text = ground (arith, s.text);
      away = λ h. s.away (grind (arith, dict_laws, eqb_ne to w ne_w));
    };
  }

pub ruleset stands_rules = (Stands-copy_file_away, Stands-remove_file, Stands-link, Stands-rename)
