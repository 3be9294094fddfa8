-- ===== src/LogParse/Main/Report.antt =====
-- What `log_parse_main` of applets/log_parse/log_parse.c ends with, with a regular expression.
use stream_data_pipline.Prelude.Bytes.{Bytes}
