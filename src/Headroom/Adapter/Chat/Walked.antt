-- ===== src/Headroom/Adapter/Chat/Walked.antt =====
-- internal/headroom/adapter.go: the walk of `projectOpenAIChat` over messages and blocks.
