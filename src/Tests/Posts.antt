-- ===== src/Tests/Posts.antt =====
-- A document is posted to the endpoint of the publisher, with and without the token.
use el_backend.Publish.Endpoint.Token.{authorized_iff, Carries}
use el_backend.Text.{text_eq, has_prefix, codes, Text}
use el_backend.Publish.Endpoint.Answered.{post_publication-Answers, Answers}
use el_backend.Publish.Endpoint.{
  published_as, reply_of, take_audio, read_limited, next_part, unauthorized, take_document, problem,
  take_parts, Post, is_authorized, Reader, post_publication,
}
use el_backend.Tests.Publications.{
  setting, quiet_world, document, digest, key, empty, first_result, published_first,
}
use el_backend.Tests.Recordings.{no_objects}
use el_backend.Text.Ascii.{ascii}
use el_backend.Text.Prefix.{trim_prefix}
use el_backend.Base.{
  ◌≢◌, ◌↔◌, true, refl, ap, false, ◌≡◌, [], none, ◌==◌, ◌∷◌, some, length, if◌then◌else◌,
}

abbrev reader : Reader
reader = record {
  sum = λ s. s;
  audio_sum = λ bytes. digest;
  decode_document = λ bytes. if length bytes == 0 then none else some document;
}

abbrev post : Text → Post
post authorization = record {
  authorization = authorization;
  idempotency_key = key;
  parts = some (
      record { form_name = codes "document"; body = record { bytes = 1 ∷ []; fails = false } }
      ∷ record { form_name = codes "audio"; body = record { bytes = 2 ∷ []; fails = false } }
      ∷ []);
}

wrong_token :
    (post_publication reader setting
      (codes "secret")
      (post (codes "Bearer other"))
      (quiet_world, no_objects)).0
    ≡ problem 401 unauthorized
unfolding post_publication is_authorized trim_prefix has_prefix text_eq
wrong_token = refl

no_token :
    (post_publication reader setting [] (post []) (quiet_world, no_objects)).0
    ≡ problem 401 unauthorized
unfolding post_publication is_authorized trim_prefix has_prefix text_eq
no_token = refl

created_first :
    (post_publication reader setting
      (codes "secret")
      (post (codes "Bearer secret"))
      (quiet_world, no_objects)).0
    ≡ published_as 201 first_result
unfolding post_publication is_authorized trim_prefix has_prefix text_eq take_parts take_document
    next_part read_limited take_audio reply_of
created_first = ap (λ x. reply_of x) published_first

post_publication-Answers_example :
    Answers reader setting (codes "secret") (post (codes "Bearer secret")) empty (
      post_publication reader setting
        (codes "secret")
        (post (codes "Bearer secret"))
        (quiet_world, no_objects))
post_publication-Answers_example =
    post_publication-Answers reader setting (codes "secret") (post (codes "Bearer secret"))
      quiet_world no_objects

authorized_iff_example :
    (is_authorized reader (codes "secret") (post (codes "Bearer secret")) ≡ true)
    ↔ ((codes "secret" ≢ []) × Carries (codes "secret") (codes "Bearer secret"))
unfolding has_prefix
authorized_iff_example =
    authorized_iff reader (codes "secret") (λ x e. e) refl (post (codes "Bearer secret"))
