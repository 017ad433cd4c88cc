-- ===== src/Tests/Drain.antt =====
-- A delete that the worker carries out.
use griya_maya.Base.{◌≡◌, refl, false, some, [], ◌∷◌}
use griya_maya.Base.Int.{pos}
use griya_maya.Text.{str, str_eq, blank, has_prefix, mem_str, trim_space}
use griya_maya.FilePath.{dir}
use griya_maya.Effect.{exec}
use griya_maya.Effect.Laws.{world}
use griya_maya.Repo.Reads.{pages, order_by, insert_by}
use griya_maya.Repo.Writes as Repo
use griya_maya.Service.Cleanup.{split_key, split_keys, split_hls_prefixes, enqueue_cleanup}
use griya_maya.Service.Ports.{enqueue_keys, enqueue_prefixes}
use griya_maya.Service.Deletes.{delete_rows, delete_chapters}
use griya_maya.Worker.Bucket.{
  list_keys, delete_objects, delete_batches, delete_batch, stuck_in, remove_objects,
}
use griya_maya.Worker.Bucket.Laws.{has_object}
use griya_maya.Worker.Cleanup.{Message, process, process_batch, delete_job, expand}
use griya_maya.Pipeline.{delete_chapters-process_batch}
use griya_maya.Tests.Shelf.{live_config, shelf}

abbrev plain_message : Message
plain_message = record {
  lease_id = str "1";
  body = some (record { keys = str "p/1" ∷ []; prefixes = [] });
  attempts = pos 1;
}

abbrev bundle_message : Message
bundle_message = record {
  lease_id = str "2";
  body = some (record { keys = []; prefixes = str "hls/v/" ∷ [] });
  attempts = pos 1;
}

delete_chapters-process_batch_example :
    has_object
      (str "hls/v/1")
      (process_batch
        (plain_message ∷ bundle_message ∷ [])
        (record { acks = []; retries = [] })
        (world (delete_chapters live_config (str " a" ∷ []) (world shelf [])).1.store [])).1
    ≡ false
unfolding blank mem_str str_eq has_prefix process_batch process delete_job expand list_keys
    delete_objects delete_batches delete_batch stuck_in delete_chapters delete_rows pages order_by
    insert_by Repo.delete_chapter enqueue_cleanup split_hls_prefixes split_keys split_key dir
    trim_space enqueue_keys enqueue_prefixes exec remove_objects
delete_chapters-process_batch_example =
    delete_chapters-process_batch live_config (str " a" ∷ []) shelf (str "hls/v/1")
      (plain_message ∷ bundle_message ∷ []) []
      (record { acks = str "1" ∷ str "2" ∷ []; retries = [] }) refl refl refl refl refl refl
