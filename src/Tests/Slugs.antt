-- ===== src/Tests/Slugs.antt =====
-- Runs of the slugs.
use el_backend.Publish.Slug.Shape.{slugify_shape, IsSlug}
use el_backend.Publish.Slug.Again.{slugify_idem}
use el_backend.Base.{refl, ◌⊎◌, [], ◌≡◌}
use el_backend.Text.{lower_rune, is_space, trim_right, trim_left, trim_space, to_lower, codes}
use el_backend.Publish.Slug.{
  trim_right_dashes, trim_left_dashes, trim_dashes, slug_loop, safe_segment, slugify,
}
use el_backend.Text.Ascii.{ascii}

words : Unit {0}
unfolding slugify slug_loop trim_dashes trim_left_dashes trim_right_dashes to_lower trim_space
    trim_left trim_right is_space lower_rune safe_segment
words = tt

slug_run : slugify (codes "  VOA: Learning -- English! ") ≡ codes "voa-learning-english"
unfolding words
slug_run = refl

segment_run : safe_segment (codes " !? ") ≡ codes "content"
unfolding words
segment_run = refl

slugify_shape_example : (slugify (codes "A b!") ≡ []) ⊎ IsSlug (slugify (codes "A b!"))
slugify_shape_example = slugify_shape (codes "A b!")

slugify_idem_example : slugify (slugify (codes "A b!")) ≡ slugify (codes "A b!")
slugify_idem_example = slugify_idem (codes "A b!")
