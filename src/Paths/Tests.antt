-- ===== src/Paths/Tests.antt =====
-- The theorems on paths and on the choice of the applet, at small inputs.
use stream_data_pipline.Prelude.{◌≡◌, refl, false}
use stream_data_pipline.Prelude.Bytes.{codes, contains, str_eq}
use stream_data_pipline.Paths.{slash, is_box}

plain_name : contains slash (codes "log_parse") ≡ false
unfolding contains
plain_name = refl

not_box : is_box (codes "log_parse") ≡ false
unfolding str_eq
not_box = refl
