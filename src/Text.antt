-- ===== src/Text.antt =====
-- Python's text methods that the runner uses, on native texts and on lists of code points.
pub mod Strip
pub mod Match
