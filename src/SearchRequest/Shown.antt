-- ===== src/SearchRequest/Shown.antt =====
-- What a search shows, from the words of the command to the lines of the display.
use cadaver.Search.{Result}
use cadaver.SearchRequest.{SearchRequest, Ending}
