-- ===== src/Lex/Tests.antt =====
-- Runs of http/lex.go, from http/lex_test.go.
use go_http.Prelude.{All, AllBytes, all_bytes, all_bytes_iff, ◌++◌, length}
use go_http.Lex.{is_any_text}
use go_http.Lex.Quoted.{quote, http_unquote-quote}
use go_http.Lex.Tokens.{IsWord}
use go_http.Prelude.{◌≡◌, refl, [], ◌∷◌, some, codes}
use go_http.Lex.{http_unquote, unquoted, is_separator, is_token, http_split_field_value}

unquote_runs : http_unquote (codes "\"a\\nb\" tail") ≡ unquoted 6 (codes "a\nb")
unfolding http_unquote
unquote_runs = refl

split_runs :
    http_split_field_value (codes "text/xml; q=\"a b\"c")
    ≡ some (18, codes "text" ∷ codes "xml" ∷ codes "q" ∷ codes "a bc" ∷ [])
unfolding http_split_field_value http_unquote is_separator is_token
split_runs = refl

said_text : AllBytes is_any_text (codes "say \"hi\"")
unfolding is_any_text
said_text = (all_bytes_iff is_any_text (codes "say \"hi\"")).0 (unfold all_bytes in refl)

http_unquote-quote_example :
    http_unquote (quote (codes "say \"hi\"") ++ codes "; q=1")
    ≡ unquoted (length (quote (codes "say \"hi\""))) (codes "say \"hi\"")
http_unquote-quote_example = http_unquote-quote (codes "say \"hi\"") (codes "; q=1") said_text

gzip_words : All IsWord (codes "gzip" ∷ codes "deflate" ∷ [])
unfolding is_token is_separator
gzip_words = (
  ((λ e. cc), (all_bytes_iff is_token (codes "gzip")).0 (unfold all_bytes in refl)),
  (((λ e. cc), (all_bytes_iff is_token (codes "deflate")).0 (unfold all_bytes in refl)), tt),
)
