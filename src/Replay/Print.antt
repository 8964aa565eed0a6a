-- ===== src/Replay/Print.antt =====
-- What `_print_preview` of scripts/dlq-replay.py prints.
use lingo_async.Prelude.{
  ℕ, zero, suc, String, ◌<>◌, List, [], ◌∷◌, leb, length, or_default, if◌then◌else◌,
}
use lingo_async.Python.Text.{codes}
use lingo_async.Replay.{Preview, ReplayResult}

-- body[:n]
unfoldable pub prefix : ℕ → String → String
prefix zero s = ""
prefix (suc n) String.[] = ""
prefix (suc n) (String.◌∷◌ c s) = String.◌∷◌ c (prefix n s)

abbrev snippet : String → String
snippet body = if leb (length (codes body)) 200 then body else prefix 200 body <> "…"

-- `decimal` is `str` of a number.
module _ (decimal : ℕ → String) where
  abbrev preview_text : ℕ → Preview → String
  preview_text i p =
      "  "
      <> (decimal i
          <> (". id=" <> (or_default p.message_id "None" <> ("\n     " <> snippet p.body))))

  unfoldable pub preview_texts : ℕ → List Preview → List String
  preview_texts i [] = []
  preview_texts i (p ∷ ps) = preview_text i p ∷ preview_texts (suc i) ps

  abbrev mode : ReplayResult → String
  mode r = if r.dry_run then "DRY-RUN (no messages moved)" else "APPLY"

  -- `_print_preview`: the texts that it prints.
  unfoldable pub print_preview : ReplayResult → String → List String
  unfolding preview_texts
  print_preview r dest =
      let heading = "\n=== DLQ replay preview [" <> (mode r <> "] ===") in
      let counts =
        "scanned="
        <> (decimal r.scanned
            <> (" matched="
                <> (decimal r.matched <> (" skipped_by_filter=" <> decimal r.skipped_filter)))) in
      heading ∷ counts ∷ elim r.previews [
        | [] ↦ "(no matching messages)" ∷ []
        | p ∷ ps ↦
            ("\nWould move "
              <> (decimal r.matched
                  <> (" message(s) → "
                      <> (dest <> (". Showing first " <> (decimal (length (p ∷ ps)) <> ":"))))))
            ∷ preview_texts 1 (p ∷ ps)
      ]
