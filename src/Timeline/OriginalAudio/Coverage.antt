-- ===== src/Timeline/OriginalAudio/Coverage.antt =====
-- The rebuilt sound and the primary track: go/internal/timeline/timeline.go (DeriveOriginalAudio,
-- rebuildOriginalAudio).
