-- ===== src/Retrieval/Tests.antt =====
-- A footer that must drop entries, and the pages of a short text.
use grag.Base.{ℕ, ◌+◌, ◌*◌, ◌≤◌, min, length, String, List, [], ◌∷◌, none, some, ◌≡◌, refl, arith}
use grag.Base.Values.{Props, str}
use grag.Base.Dict.{lookup, contains}
use grag.Base.Result.{Result, returned, raised, configuration_error}
use grag.Retrieval.{
  Metadata, attach_metadata, drop_hits, drop_unknowns, retrieval_budget, PageRequest, Window, Page,
  chars, check_page, response, pack_text_page, page_end, search_end, best_end,
}
use grag.Limits.{check_size}
use grag.Retrieval.Footer.{Attached, attach_metadata-fits}
use grag.Retrieval.Pages.{Given, pack_text_page-Ended}

-- Each entry takes ten tokens.
abbrev tokens : Metadata → ℕ
tokens m = 10 * (length m.hits + length m.unknowns)

abbrev counts : List (String × ℕ)
counts = ("Document", 3) ∷ ("Function", 2) ∷ []

abbrev footer : Metadata
footer = attach_metadata tokens 15 counts 0 ("Claim" ∷ [])

keeps_label :
    footer ≡ record { hits = []; omitted = 2; unknowns = "Claim" ∷ []; unknown_omitted = 0 }
unfolding attach_metadata drop_hits drop_unknowns
keeps_label = refl

attach_metadata-fits_example : Attached tokens 15 counts 0 ("Claim" ∷ []) footer
attach_metadata-fits_example = attach_metadata-fits tokens 15 counts 0 ("Claim" ∷ []) (omega arith)

abbrev properties : Props
properties = ("text", str "abcdefgh") ∷ []

abbrev request : PageRequest
request = record { text_property = some "text"; text_sha256 = none; text_offset = 2 }

abbrev whole : Window
whole = record { page_origin = 0; page_total = none; page_digest = none }

-- A page takes its end's number of tokens.
abbrev page_tokens : Page → ℕ
page_tokens page = page.ends_at

abbrev digest : String → String
digest value = "d"

accepted : check_page digest properties request whole ≡ returned ("text", "abcdefgh", "d", 8)
unfolding check_page contains lookup chars
accepted = refl

pages :
    pack_text_page page_tokens digest properties request 5 whole
    ≡ some (returned (response request "text" "d" 8 5))
unfolding pack_text_page check_page contains lookup chars page_end search_end best_end
pages = refl

reaches : 2 ≤ 0 + chars "abcdefgh"
unfolding chars
reaches = omega arith

pack_text_page-Ended_example :
    (r : Result ℕ) × (pack_text_page page_tokens digest properties request 5 whole
      ≡ some (elim r [
        | returned end ↦ returned (response request "text" "d" 8 end)
        | raised e ↦ raised e
      ]))
    × Given (λ end. end) 5 2 (min (chars "abcdefgh") 22) r
unfolding chars
pack_text_page-Ended_example =
    pack_text_page-Ended page_tokens digest properties request 5 whole "text" "abcdefgh" "d" 8
      accepted reaches

budget_of_request : retrieval_budget (some 300) 4000 ≡ returned 300
unfolding retrieval_budget check_size
budget_of_request = refl

budget_too_small : retrieval_budget (some 255) 4000 ≡ raised configuration_error
unfolding retrieval_budget
budget_too_small = refl
