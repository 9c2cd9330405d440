-- ===== src/Tracker/Modules.antt =====
-- The map of the words of the modules.
use faser_common.Common.{
  ℕ, ◌≡◌, refl, ap, ◌∙◌, List, [], ◌∷◌, ◌++◌, append_assoc, append-nil, inl, inr,
}
use faser_common.Common.{◌==◌, ==_iff, Bool-cases, if◌then◌else◌, Option, none, some}
use faser_common.Common.OrderedMap.{find, insert, find-insert}
use faser_common.Tracker.{push_module, module_key}

-- The words under a key, none if the key is missing.
abbrev or_empty : Option (List ℕ) → List ℕ
or_empty none = []
or_empty (some ws) = ws

abbrev pub words_under : ℕ → List (ℕ × List ℕ) → List ℕ
words_under key db = or_empty (find key db)

-- The words of a channel of a module among the given ones: channel, module and value of each.
abbrev pub words_of : ℕ → List (ℕ × ℕ × ℕ) → List ℕ
words_of key [] = []
words_of key ((channel, module_id, value) ∷ hits) =
    let rest = words_of key hits in
    if key == module_key module_id channel then value ∷ rest else rest

-- The words one after the other.
unfoldable pub sorted_out : List (ℕ × ℕ × ℕ) → List (ℕ × List ℕ) → List (ℕ × List ℕ)
sorted_out [] db = db
sorted_out ((channel, module_id, value) ∷ hits) db =
    sorted_out hits (push_module (module_key module_id channel) value db)

words_under-insert :
    (k key : ℕ) (ws : List ℕ) (db : List (ℕ × List ℕ))
    → words_under k (insert key ws db) ≡ (if k == key then ws else words_under k db)
words_under-insert k key ws db = elim (Bool-cases (k == key)) [
  | inl same ↦ ap or_empty (find-insert key k ws db) ∙ rw same refl
  | inr other ↦ ap or_empty (find-insert key k ws db) ∙ rw other refl
]

push_module-insert :
    (key value : ℕ) (db : List (ℕ × List ℕ)) (found : Option (List ℕ))
    → find key db ≡ found
    → push_module key value db ≡ insert key (or_empty found ++ (value ∷ [])) db
unfolding push_module
push_module-insert key value db none e = rw (push_module, e) refl
push_module-insert key value db (some old) e = rw (push_module, e) refl

pub words_under-push_module :
    (k key value : ℕ) (db : List (ℕ × List ℕ))
    → words_under k (push_module key value db)
      ≡ (if k == key then words_under k db ++ (value ∷ []) else words_under k db)
words_under-push_module k key value db =
    ap (words_under k) (push_module-insert key value db (find key db) refl)
    ∙ words_under-insert k key (words_under key db ++ (value ∷ [])) db
    ∙ elim (Bool-cases (k == key)) [
      | inl same ↦ rw (same, (==_iff k key).0 same) refl
      | inr other ↦ rw other refl
    ]

-- What is found under a key is what was there, and behind it the words of that key.
pub words_under-sorted_out :
    (key : ℕ) (hits : List (ℕ × ℕ × ℕ)) (db : List (ℕ × List ℕ))
    → words_under key (sorted_out hits db) ≡ words_under key db ++ words_of key hits
unfolding sorted_out
words_under-sorted_out key [] db = rw (append-nil (words_under key db)) refl
words_under-sorted_out key ((channel, module_id, value) ∷ hits) db =
    words_under-sorted_out key hits (push_module (module_key module_id channel) value db)
    ∙ ap (λ t. t ++ words_of key hits)
        (words_under-push_module key (module_key module_id channel) value db)
    ∙ elim (Bool-cases (key == module_key module_id channel)) [
      | inl same ↦ rw same (append_assoc (words_under key db) (value ∷ []) (words_of key hits))
      | inr other ↦ rw other refl
    ]
