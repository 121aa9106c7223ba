-- ===== src/Installer/Ownership.antt =====
-- An install or an uninstall touches only what the integration owns, and an entry of a shared document
-- goes without a trace.
use graph_skill_runtime.Common.{
  String, false, List, [], ◌∷◌, map, Option, none, some, ◌≡◌, ◌⊎◌, inl, inr, refl, arith, eq_iff,
  eq_refl, is_some, ap, ◌∙◌, Option-cases, not,
}
use graph_skill_runtime.Json.{Json, JsonObject, object, empty, get, put}
use graph_skill_runtime.Installer.Disk.{Bytes}
use graph_skill_runtime.Installer.Apply.{
  IntegrationTarget, claude, codex, copilot, cursor, gemini, opencode, remove, create, json_entry,
  ManifestEntry, Mutation,
}
use graph_skill_runtime.Installer.JsonPath.{
  Prefix, lookup_json, set_json, remove_json, missing_json_parents, prune_created_json_parents,
  child_of, Child, missing, blocked, nested,
}
use graph_skill_runtime.Installer.JsonPath.Restore.{
  IsClear, IsClear-empty, get-put_self, set-remove_restores,
}
use graph_skill_runtime.Installer.Plan.{
  Codec, FileProjection, JsonEntryProjection, ok, to_tuple, prefixes, is_shadowed,
  decode_json_document, file_conflict, plan_install_file, entry_mutation, parents_of, found_entry,
  set_entry, plan_install_json, without_entry, uninstall_json_state,
}

prefixes-to_tuple : (ps : List Prefix) → prefixes (map to_tuple ps) ≡ ps
prefixes-to_tuple [] = refl
prefixes-to_tuple ((k, ks) ∷ ps) = ap (λ qs. (k, ks) ∷ qs) (prefixes-to_tuple ps)

not_shadowed : (t : IntegrationTarget) → is_shadowed t false ≡ false
not_shadowed claude = refl
not_shadowed codex = refl
not_shadowed copilot = refl
not_shadowed cursor = refl
not_shadowed gemini = refl
not_shadowed opencode = refl

lookup_json-none :
    (document : JsonObject) (key : String) (ks : List String)
    → IsClear document key ks
    → lookup_json document key ks ≡ none
unfolding lookup_json
lookup_json-none document key [] clear = clear
lookup_json-none document key (k ∷ ks) (inl absent) = rw (absent, lookup_json) refl
lookup_json-none document key (k ∷ ks) (inr (c, there, clear)) =
    rw (there, lookup_json) (lookup_json-none c k ks clear)

lookup_json-put :
    (document o : JsonObject) (key k : String) (ks : List String)
    → lookup_json (put document key (object o)) key (k ∷ ks) ≡ lookup_json o k ks
unfolding lookup_json
lookup_json-put document o key k ks = rw (get-put_self document key (object o), lookup_json) refl

Child-cases : (x : Child) → (x ≡ missing) ⊎ ((x ≡ blocked) ⊎ ((c : JsonObject) × (x ≡ nested c)))
Child-cases missing = inl refl
Child-cases blocked = inr (inl refl)
Child-cases (nested c) = inr (inr (c, refl))

-- A set below a key replaces the object at the key.
set_json-below :
    (document : JsonObject) (key k : String) (ks : List String) (value : Json) (after : JsonObject)
    → set_json document key (k ∷ ks) value ≡ some after
    → (c : JsonObject) × (o : JsonObject) × (set_json c k ks value ≡ some o)
      × (after ≡ put document key (object o))
unfolding set_json
set_json-below document key k ks value after h = elim (Child-cases (child_of (get document key))) [
  | inl m ↦ elim (Option-cases (set_json empty k ks value)) [
    | inl n ↦ absurd (ground (arith, h, m, n))
    | inr (o, e) ↦ (empty, o, e, ground (arith, h, m, e))
  ]
  | inr (inl b) ↦ absurd (ground (arith, h, b))
  | inr (inr (c, there)) ↦ elim (Option-cases (set_json c k ks value)) [
    | inl n ↦ absurd (ground (arith, h, there, n))
    | inr (o, e) ↦ (c, o, e, ground (arith, h, there, e))
  ]
]

-- A value that was set is found.
lookup_json-set_json :
    (ks : List String) (document : JsonObject) (key : String) (value : Json) (after : JsonObject)
    → set_json document key ks value ≡ some after
    → lookup_json after key ks ≡ some value
unfolding set_json lookup_json
lookup_json-set_json [] document key value after h =
    ground (arith, h, get-put_self document key value)
lookup_json-set_json (k ∷ ks) document key value after h =
    let (c, o, e, is) = set_json-below document key k ks value after h in
    ap (λ d. lookup_json d key (k ∷ ks)) is
    ∙ lookup_json-put document o key k ks
    ∙ lookup_json-set_json ks c k value o e

-- json.loads reads back what json.dumps wrote, for the document with the entry.
abbrev pub ReadsBack : Codec → JsonObject → JsonEntryProjection → Type 0
ReadsBack codec document r =
    (after : JsonObject)
    → set_json document r.key r.keys r.value ≡ some after
    → codec.json_loads (codec.pretty_json (object after)) ≡ some (object after)

module _ (codec : Codec) where
  file_conflict-none :
      (owned : Option ManifestEntry) (before : Option Bytes)
      → file_conflict codec owned before ≡ none
      → (before ≡ none)
        ⊎ ((entry : ManifestEntry) × (bytes : Bytes) × (owned ≡ some entry)
            × (before ≡ some bytes)
            × (codec.sha256 bytes ≡ entry.content_sha256))
  unfolding file_conflict
  file_conflict-none owned none h = inl refl
  file_conflict-none none (some bytes) h = absurd (ground (arith, h))
  file_conflict-none (some entry) (some bytes) h = inr (
    entry,
    bytes,
    refl,
    refl,
    ground (arith, h, eq_iff (codec.sha256 bytes) entry.content_sha256),
  )

  -- Where the install of a file is planned without a conflict, no file is there, or the manifest owns it
  -- and it still has the content that was installed; the write goes from what was read to the asset.
  pub plan_install_file-IsOwned :
      (target : IntegrationTarget) (resource : FileProjection) (owned : Option ManifestEntry)
      (before : Option Bytes) (m : Mutation)
      → plan_install_file codec target resource owned before ≡ ok m
      → (m.before ≡ before)
        × (m.after ≡ some resource.content)
        × ((before ≡ none)
            ⊎ ((entry : ManifestEntry) × (bytes : Bytes) × (owned ≡ some entry)
                × (before ≡ some bytes)
                × (codec.sha256 bytes ≡ entry.content_sha256)))
  unfolding plan_install_file
  plan_install_file-IsOwned target resource owned before m h =
      elim (Option-cases (file_conflict codec owned before)) [
        | inl n ↦ (ground (arith, h, n), ground (arith, h, n), file_conflict-none owned before n)
        | inr (e, c) ↦ absurd (ground (arith, h, c))
      ]

  -- A plan for an entry that does not exist yet, and that can be set.
  plan_install_json-new :
      (target : IntegrationTarget) (r : JsonEntryProjection) (before : Option Bytes)
      (document after : JsonObject) (created : List Prefix)
      → decode_json_document codec before ≡ ok document
      → missing_json_parents document r.key r.keys ≡ some created
      → lookup_json document r.key r.keys ≡ none
      → set_json document r.key r.keys r.value ≡ some after
      → plan_install_json codec target r none false before
        ≡ ok (
            entry_mutation codec target r
              (not (is_some before))
              (map to_tuple created)
              create
              before
              (some (codec.pretty_json (object after))))
  unfolding plan_install_json parents_of found_entry set_entry
  plan_install_json-new target r before document after created decoded parents absent set =
      ground (arith, not_shadowed target, decoded, parents, absent, set)

  -- The manifest's entry for a projection that was new.
  abbrev pub new_entry : JsonEntryProjection → Option Bytes → List Prefix → ManifestEntry
  new_entry r before created = record {
    resource_id = r.resource_id;
    resource_kind = json_entry;
    path = r.path;
    selector = r.key ∷ r.keys;
    content_sha256 = codec.sha256 (codec.canonical_json r.value);
    container_created = not (is_some before);
    created_json_parents = map to_tuple created;
  }

  uninstall_json_state-new :
      (r : JsonEntryProjection) (before : Option Bytes) (document after : JsonObject)
      (created : List Prefix)
      → codec.json_loads (codec.pretty_json (object after)) ≡ some (object after)
      → lookup_json after r.key r.keys ≡ some r.value
      → prune_created_json_parents (remove_json after r.key r.keys) created ≡ document
      → uninstall_json_state codec
          (new_entry r before created)
          (some (codec.pretty_json (object after)))
        ≡ ok (remove, without_entry codec (new_entry r before created) document)
  unfolding uninstall_json_state decode_json_document
  uninstall_json_state-new r before document after created back there undone = ground (
    arith,
    back,
    there,
    undone,
    eq_refl (codec.sha256 (codec.canonical_json r.value)),
    prefixes-to_tuple created,
  )

  -- An install of an entry and its uninstall, one after the other, on what was read before.
  pub record Undoes (target : IntegrationTarget) (r : JsonEntryProjection) (before : Option Bytes)
      (left : Option Bytes) : Type 0 where
    pub mutation : Mutation
    pub entry : ManifestEntry
    pub planned : plan_install_json codec target r none false before ≡ ok mutation
    pub recorded : mutation.manifest_entry ≡ some entry
    pub taken_out : uninstall_json_state codec entry mutation.after ≡ ok (remove, left)

  undoes :
      (target : IntegrationTarget) (r : JsonEntryProjection) (before : Option Bytes)
      (document : JsonObject)
      → ReadsBack codec document r
      → decode_json_document codec before ≡ ok document
      → IsClear document r.key r.keys
      → (created : List Prefix) × Undoes target r before
          (without_entry codec (new_entry r before created) document)
  undoes target r before document back decoded clear =
      let s = set-remove_restores r.keys document r.key r.value clear in
      (
        s.created,
        record {
          mutation =
              entry_mutation codec target r (not (is_some before)) (map to_tuple s.created) create
                before (some (codec.pretty_json (object s.after)));
          entry = new_entry r before s.created;
          planned =
              plan_install_json-new target r before document s.after s.created decoded s.created_is
                (lookup_json-none document r.key r.keys clear) s.set_is;
          recorded = refl;
          taken_out =
              uninstall_json_state-new r before document s.after s.created (back s.after s.set_is)
                (lookup_json-set_json r.keys document r.key r.value s.after s.set_is) s.undone;
        },
      )

-- Under the same law, where no document is there: the install makes it and the uninstall removes it.
pub install-uninstall_removes :
    (codec : Codec) (target : IntegrationTarget) (r : JsonEntryProjection)
    → ReadsBack codec empty r
    → Undoes codec target r none none
unfolding decode_json_document without_entry
install-uninstall_removes codec target r back =
    (undoes codec target r none empty back refl (IsClear-empty r.key r.keys)).1
