-- ===== src/Installer/JsonPath/Restore.antt =====
-- Taking an entry out again, with the parents that were made for it, gives the document back.
use graph_skill_runtime.Common.{
  String, List, [], ◌∷◌, ◌++◌, map, none, some, ◌≡◌, ◌⊎◌, inl, inr, refl, arith, ap, ◌∙◌, eq_refl,
}
use graph_skill_runtime.Json.{
  Json, JsonObject, null, object, empty, get, put, pop, get-put, pop-put, pop-put_any, pop-absent,
  put-put, put-get_self,
}
use graph_skill_runtime.Installer.JsonPath.{
  set_json, remove_json, missing_json_parents, Prefix, under, insert_longest, sort_longest,
  prune_parent, prune_sorted, prune_created_json_parents, child_of, Child,
}

-- The entry does not exist, and what its selector passes through are objects, as far as they exist.
abbrev pub IsClear : JsonObject → String → List String → Type 0
IsClear document key [] = get document key ≡ none
IsClear document key (k ∷ ks) =
    (get document key ≡ none)
    ⊎ ((c : JsonObject) × (get document key ≡ some (object c)) × IsClear c k ks)

pub IsClear-empty : (key : String) (ks : List String) → IsClear empty key ks
unfolding get
IsClear-empty key [] = refl
IsClear-empty key (k ∷ ks) = inl refl

pub get-put_self : (o : JsonObject) (k : String) (v : Json) → get (put o k v) k ≡ some v
get-put_self o k v = rw (get-put, eq_refl)

insert_longest-under :
    (key : String) (x : Prefix) (ys : List Prefix)
    → insert_longest (under key x) (map (under key) ys) ≡ map (under key) (insert_longest x ys)
unfolding insert_longest
insert_longest-under key (k, ks) [] = refl
insert_longest-under key (k, ks) ((j, js) ∷ ys) =
    ground (arith, insert_longest-under key (k, ks) ys)

sort_longest-under :
    (key : String) (xs : List Prefix)
    → sort_longest (map (under key) xs) ≡ map (under key) (sort_longest xs)
unfolding sort_longest
sort_longest-under key [] = refl
sort_longest-under key (x ∷ xs) =
    ap (insert_longest (under key x)) (sort_longest-under key xs)
    ∙ insert_longest-under key x (sort_longest xs)

-- The shortest prefix goes last.
insert_longest-last :
    (key : String) (ys : List Prefix)
    → insert_longest (key, []) (map (under key) ys) ≡ map (under key) ys ++ (key, []) ∷ []
unfolding insert_longest
insert_longest-last key [] = refl
insert_longest-last key ((j, js) ∷ ys) = ground (arith, insert_longest-last key ys)

prune_sorted-append :
    (document : JsonObject) (xs ys : List Prefix)
    → prune_sorted document (xs ++ ys) ≡ prune_sorted (prune_sorted document xs) ys
unfolding prune_sorted
prune_sorted-append document [] ys = refl
prune_sorted-append document ((k, ks) ∷ xs) ys =
    prune_sorted-append (prune_parent document k ks) xs ys

prune_parent-under :
    (document c : JsonObject) (key k : String) (ks : List String)
    → prune_parent (put document key (object c)) key (k ∷ ks)
      ≡ put document key (object (prune_parent c k ks))
unfolding prune_parent
prune_parent-under document c key k ks = ground (
  arith,
  get-put_self document key (object c),
  put-put document key (object c) (object (prune_parent c k ks)),
)

prune_sorted-under :
    (document c : JsonObject) (key : String) (ps : List Prefix)
    → prune_sorted (put document key (object c)) (map (under key) ps)
      ≡ put document key (object (prune_sorted c ps))
unfolding prune_sorted
prune_sorted-under document c key [] = refl
prune_sorted-under document c key ((k, ks) ∷ ps) =
    ap (λ d. prune_sorted d (map (under key) ps)) (prune_parent-under document c key k ks)
    ∙ prune_sorted-under document (prune_parent c k ks) key ps

-- What an entry's install and uninstall make of a document.
pub record Undone (document : JsonObject) (key : String) (ks : List String) (value : Json)
    (result : JsonObject) : Type 0 where
  pub after : JsonObject
  pub created : List Prefix
  pub set_is : set_json document key ks value ≡ some after
  pub created_is : missing_json_parents document key ks ≡ some created
  pub undone : prune_created_json_parents (remove_json after key ks) created ≡ result

abbrev pub Restored : JsonObject → String → List String → Json → Type 0
Restored document key ks value = Undone document key ks value document

module _ (document : JsonObject) (key k : String) (ks : List String) where
  remove_json-under :
      (o : JsonObject)
      → remove_json (put document key (object o)) key (k ∷ ks)
        ≡ put document key (object (remove_json o k ks))
  unfolding remove_json
  remove_json-under o = ground (
    arith,
    get-put_self document key (object o),
    put-put document key (object o) (object (remove_json o k ks)),
  )

  -- The entry's removal and the pruning below `key` happen in the child.
  prune-remove-under :
      (o : JsonObject) (ps : List Prefix)
      → prune_sorted (remove_json (put document key (object o)) key (k ∷ ks)) (map (under key) ps)
        ≡ put document key (object (prune_sorted (remove_json o k ks) ps))
  prune-remove-under o ps =
      ap (λ d. prune_sorted d (map (under key) ps)) (remove_json-under o)
      ∙ prune_sorted-under document (remove_json o k ks) key ps

  -- under an object that was there
  restore_nested :
      (value : Json) (c : JsonObject)
      → get document key ≡ some (object c)
      → Restored c k ks value
      → Restored document key (k ∷ ks) value
  unfolding set_json missing_json_parents prune_created_json_parents
  restore_nested value c there r = record {
    after = put document key (object r.after);
    created = map (under key) r.created;
    set_is = rw (there, set_json) (ground (arith, r.set_is));
    created_is = rw (there, missing_json_parents) (ground (arith, r.created_is));
    undone =
        ap (prune_sorted _) (sort_longest-under key r.created)
        ∙ prune-remove-under r.after (sort_longest r.created)
        ∙ ap (λ o. put document key (object o)) r.undone
        ∙ put-get_self document key (object c) there;
  }

  prune_emptied : prune_sorted (put document key (object empty)) ((key, []) ∷ []) ≡ pop document key
  unfolding prune_sorted prune_parent
  prune_emptied =
      ground
        (arith, get-put_self document key (object empty), pop-put_any document key (object empty))

  -- under an object that was made for it, in place of nothing or of a null
  undo_made :
      (value : Json)
      → child_of (get document key) ≡ Child.missing
      → Restored empty k ks value
      → Undone document key (k ∷ ks) value (pop document key)
  unfolding set_json missing_json_parents prune_created_json_parents
  undo_made value absent r =
      let d = remove_json (put document key (object r.after)) key (k ∷ ks) in
      let ps = map (under key) (sort_longest r.created) in
      record {
        after = put document key (object r.after);
        created = (key, []) ∷ map (under key) r.created;
        set_is = rw (absent, set_json) (ground (arith, r.set_is));
        created_is = rw (absent, missing_json_parents) (ground (arith, r.created_is));
        undone =
            ap (λ qs. prune_sorted d (insert_longest (key, []) qs))
              (sort_longest-under key r.created)
            ∙ ap (prune_sorted d) (insert_longest-last key (sort_longest r.created))
            ∙ prune_sorted-append d ps ((key, []) ∷ [])
            ∙ ap (λ e. prune_sorted e ((key, []) ∷ []))
                (prune-remove-under r.after (sort_longest r.created)
                  ∙ ap (λ o. put document key (object o)) r.undone)
            ∙ prune_emptied;
      }

pub set-remove_restores :
    (ks : List String) (document : JsonObject) (key : String) (value : Json)
    → IsClear document key ks
    → Restored document key ks value
unfolding set_json missing_json_parents remove_json prune_created_json_parents
set-remove_restores [] document key value clear = record {
  after = put document key value;
  created = [];
  set_is = refl;
  created_is = refl;
  undone = pop-put document key value clear;
}
set-remove_restores (k ∷ ks) document key value (inl absent) =
    let u =
      undo_made document key k ks value (ap child_of absent)
        (set-remove_restores ks empty k value (IsClear-empty k ks)) in
    record {
      after = u.after;
      created = u.created;
      set_is = u.set_is;
      created_is = u.created_is;
      undone = u.undone ∙ pop-absent document key absent;
    }
set-remove_restores (k ∷ ks) document key value (inr (c, there, clear)) =
    restore_nested document key k ks value c there (set-remove_restores ks c k value clear)

-- A parent that is null does not come back: the install puts an object in its place and records the
-- parent as its own, and the uninstall takes the key out.
pub null_parent_is_dropped :
    (document : JsonObject) (key k : String) (ks : List String) (value : Json)
    → get document key ≡ some null
    → Undone document key (k ∷ ks) value (pop document key)
null_parent_is_dropped document key k ks value h =
    undo_made document key k ks value (ap child_of h)
      (set-remove_restores ks empty k value (IsClear-empty k ks))
