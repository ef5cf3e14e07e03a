-- ===== src/SearchResponse/Tests.antt =====
-- Responses that are handled, and instances of the theorems on them.
use cadaver.Common.{◌≡◌, refl, true, [], ◌∷◌, none, some, All, length}
use cadaver.Common.Text.{codes, streq}
use cadaver.SearchResponse.{dav, SearchCtx, new_ctx, Event, parse_all, handle_all}
use cadaver.SearchResponse.Dead.{IsBare}
use cadaver.SearchResponse.Documents.{document_events}
use cadaver.SearchResponse.Handled.{handle_all-IsBare}
use Event.{start, end}
use cadaver.SearchResponse.Samples.{mapping, items, items-IsReport}

-- A status in a property, with another element of the table in it, ends in a write through NULL.
nested :
    handle_all true mapping
      (start dav (codes "response")
        ∷ start dav (codes "prop")
        ∷ start dav (codes "status")
        ∷ start dav (codes "multistatus")
        ∷ end
        ∷ end
        ∷ [])
      new_ctx
    ≡ none
unfolding handle_all parse_all mapping streq
nested = refl

handle_all-IsBare_example :
    (c : SearchCtx) × (handle_all true mapping (document_events items) new_ctx ≡ some c)
    × All (IsBare true) c.root
    × (length c.root ≡ 2)
handle_all-IsBare_example = handle_all-IsBare true mapping items items-IsReport
